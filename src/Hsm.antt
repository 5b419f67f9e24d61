-- ===== src/Hsm.antt =====
-- internal/hsm/hsm.go: the transition tables of runs, steps and agents. An entry that a map of the
-- source lacks reads as `false`.
pub mod Edges
pub mod Reach
mod Examples
use metawsm.Base.{Bool, true, false, ◌==◌, if◌then◌else◌}
use metawsm.Model.Run.{RunStatus, StepStatus, AgentStatus, run_eq, step_eq, agent_eq}

abbrev pub run_transitions : RunStatus → RunStatus → Bool
run_transitions RunStatus.created RunStatus.planning = true
run_transitions RunStatus.planning RunStatus.running = true
run_transitions RunStatus.planning RunStatus.paused = true
run_transitions RunStatus.planning RunStatus.failed = true
run_transitions RunStatus.planning RunStatus.stopping = true
run_transitions RunStatus.running RunStatus.awaiting_guidance = true
run_transitions RunStatus.running RunStatus.paused = true
run_transitions RunStatus.running RunStatus.failed = true
run_transitions RunStatus.running RunStatus.completed = true
run_transitions RunStatus.running RunStatus.stopping = true
run_transitions RunStatus.awaiting_guidance RunStatus.running = true
run_transitions RunStatus.awaiting_guidance RunStatus.failed = true
run_transitions RunStatus.awaiting_guidance RunStatus.stopping = true
run_transitions RunStatus.paused RunStatus.running = true
run_transitions RunStatus.paused RunStatus.stopping = true
run_transitions RunStatus.failed RunStatus.running = true
run_transitions RunStatus.failed RunStatus.stopping = true
run_transitions RunStatus.stopping RunStatus.stopped = true
run_transitions RunStatus.stopped RunStatus.running = true
run_transitions RunStatus.completed RunStatus.closing = true
run_transitions RunStatus.completed RunStatus.running = true
run_transitions RunStatus.closing RunStatus.closed = true
run_transitions RunStatus.closing RunStatus.failed = true
run_transitions _ _ = false

abbrev pub step_transitions : StepStatus → StepStatus → Bool
step_transitions StepStatus.pending StepStatus.running = true
step_transitions StepStatus.pending StepStatus.skipped = true
step_transitions StepStatus.running StepStatus.done = true
step_transitions StepStatus.running StepStatus.failed = true
step_transitions StepStatus.failed StepStatus.running = true
step_transitions StepStatus.failed StepStatus.skipped = true
step_transitions _ _ = false

abbrev pub agent_transitions : AgentStatus → AgentStatus → Bool
agent_transitions AgentStatus.pending AgentStatus.running = true
agent_transitions AgentStatus.pending AgentStatus.stopped = true
agent_transitions AgentStatus.running AgentStatus.idle = true
agent_transitions AgentStatus.running AgentStatus.stalled = true
agent_transitions AgentStatus.running AgentStatus.dead = true
agent_transitions AgentStatus.running AgentStatus.stopping = true
agent_transitions AgentStatus.running AgentStatus.failed = true
agent_transitions AgentStatus.idle AgentStatus.running = true
agent_transitions AgentStatus.idle AgentStatus.stalled = true
agent_transitions AgentStatus.idle AgentStatus.dead = true
agent_transitions AgentStatus.idle AgentStatus.stopping = true
agent_transitions AgentStatus.stalled AgentStatus.running = true
agent_transitions AgentStatus.stalled AgentStatus.dead = true
agent_transitions AgentStatus.stalled AgentStatus.stopping = true
agent_transitions AgentStatus.stopping AgentStatus.stopped = true
agent_transitions _ _ = false

unfoldable pub can_transition_run : RunStatus → RunStatus → Bool
can_transition_run from to = if from == to then true else run_transitions from to

unfoldable pub can_transition_step : StepStatus → StepStatus → Bool
can_transition_step from to = if from == to then true else step_transitions from to

unfoldable pub can_transition_agent : AgentStatus → AgentStatus → Bool
can_transition_agent from to = if from == to then true else agent_transitions from to
