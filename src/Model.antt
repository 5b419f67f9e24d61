-- ===== src/Model.antt =====
-- internal/model: the data that the components exchange.
pub mod Run
pub mod Forum
pub mod Outbox
pub mod Plan
