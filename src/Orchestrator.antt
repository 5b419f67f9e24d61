-- ===== src/Orchestrator.antt =====
-- internal/orchestrator/service.go: the life of a run.
pub mod Names
pub mod Plan
pub mod Steps
pub mod Forum
pub mod Runs
pub mod Close
pub mod Guidance
pub mod Frame
pub mod Blind
pub mod Silent
pub mod Quiet
pub mod History
pub mod Settled
pub mod Lawful
pub mod Operations
