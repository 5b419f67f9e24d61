-- ===== src/Model/Run.antt =====
-- internal/model/types.go: the statuses of runs, steps and agents.
use metawsm.Base.{ℕ, ◌≡◌, ◌↔◌, Bool, true, arith, Eq, nat_beq}

pub data RunStatus : Type 0 where
  created planning running awaiting_guidance paused failed stopping stopped closing closed :
      RunStatus
  completed : RunStatus

pub data StepStatus : Type 0 where
  pending running done failed skipped : StepStatus

pub data AgentStatus : Type 0 where
  pending running idle stalled dead stopping stopped failed : AgentStatus

pub data HealthState : Type 0 where
  healthy idle stalled dead : HealthState

abbrev run_tag : RunStatus → ℕ
run_tag RunStatus.created = 0
run_tag RunStatus.planning = 1
run_tag RunStatus.running = 2
run_tag RunStatus.awaiting_guidance = 3
run_tag RunStatus.paused = 4
run_tag RunStatus.failed = 5
run_tag RunStatus.stopping = 6
run_tag RunStatus.stopped = 7
run_tag RunStatus.closing = 8
run_tag RunStatus.closed = 9
run_tag RunStatus.completed = 10

abbrev step_tag : StepStatus → ℕ
step_tag StepStatus.pending = 0
step_tag StepStatus.running = 1
step_tag StepStatus.done = 2
step_tag StepStatus.failed = 3
step_tag StepStatus.skipped = 4

abbrev agent_tag : AgentStatus → ℕ
agent_tag AgentStatus.pending = 0
agent_tag AgentStatus.running = 1
agent_tag AgentStatus.idle = 2
agent_tag AgentStatus.stalled = 3
agent_tag AgentStatus.dead = 4
agent_tag AgentStatus.stopping = 5
agent_tag AgentStatus.stopped = 6
agent_tag AgentStatus.failed = 7

abbrev pub run_beq : RunStatus → RunStatus → Bool
run_beq s t = nat_beq (run_tag s) (run_tag t)

abbrev pub step_beq : StepStatus → StepStatus → Bool
step_beq s t = nat_beq (step_tag s) (step_tag t)

abbrev pub agent_beq : AgentStatus → AgentStatus → Bool
agent_beq s t = nat_beq (agent_tag s) (agent_tag t)

pub run_beq_iff : (s t : RunStatus) → (run_beq s t ≡ true) ↔ (s ≡ t)
run_beq_iff s t = ground arith

pub step_beq_iff : (s t : StepStatus) → (step_beq s t ≡ true) ↔ (s ≡ t)
step_beq_iff s t = ground arith

pub agent_beq_iff : (s t : AgentStatus) → (agent_beq s t ≡ true) ↔ (s ≡ t)
agent_beq_iff s t = ground arith

instance abbrev pub run_eq : Eq RunStatus
run_eq = record { test = run_beq; test_iff = run_beq_iff }

instance abbrev pub step_eq : Eq StepStatus
step_eq = record { test = step_beq; test_iff = step_beq_iff }

instance abbrev pub agent_eq : Eq AgentStatus
agent_eq = record { test = agent_beq; test_iff = agent_beq_iff }
