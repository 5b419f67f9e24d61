-- ===== src/Orchestrator/Operations/Leave.antt =====
-- The statuses in which each operation of internal/orchestrator/service.go may leave its run.
use metawsm.Base.{
  String, Bool, true, false, ◌&&◌, ◌||◌, Option, none, some, ◌≡◌, refl, ◌==◌, string_eq, arith,
}
use metawsm.Model.Run.{RunStatus, run_eq, run_beq_iff}
use metawsm.Hsm.{can_transition_run}
use metawsm.Orchestrator.Operations.{
  Operation, op_run, op_resume, op_stop, op_sync, op_restart, op_guide, op_close,
}

-- The statuses into which an operation may take a run that it found in the first status
unfoldable pub moves_to : Operation → RunStatus → RunStatus → Bool
moves_to (op_run spec cfg brief) s t = false
moves_to (op_resume run_id) s t =
    can_transition_run s RunStatus.running
    && (t == RunStatus.running || t == RunStatus.failed || t == RunStatus.completed)
moves_to (op_stop run_id) s t =
    can_transition_run s RunStatus.stopping && (t == RunStatus.stopping || t == RunStatus.stopped)
moves_to (op_sync run_id) s t =
    (s == RunStatus.running || s == RunStatus.awaiting_guidance)
    && (t == RunStatus.running
        || t == RunStatus.awaiting_guidance
        || t == RunStatus.completed
        || t == RunStatus.failed)
moves_to (op_restart dry_run run_id) s t =
    can_transition_run s RunStatus.running && t == RunStatus.running
moves_to (op_guide run_id answer) s t = s == RunStatus.awaiting_guidance && t == RunStatus.running
moves_to (op_close dry_run entry run_id) s t =
    s == RunStatus.completed
    && (t == RunStatus.closing || t == RunStatus.closed || t == RunStatus.failed)

-- The statuses that a new run may have when `Run` returns or fails
unfoldable pub starts_as : Operation → RunStatus → Bool
starts_as (op_run spec cfg brief) t =
    t == RunStatus.created
    || t == RunStatus.planning
    || t == RunStatus.paused
    || t == RunStatus.running
    || t == RunStatus.failed
    || t == RunStatus.completed
starts_as o t = false

-- What an operation may leave of its run, `none` being a run that is not there
unfoldable pub may_leave : Operation → Option RunStatus → Option RunStatus → Bool
may_leave o none none = true
may_leave o none (some t) = starts_as o t
may_leave o (some s) none = false
may_leave o (some s) (some t) = s == t || moves_to o s t

pub stays : (o : Operation) (p : Option RunStatus) → may_leave o p p ≡ true
unfolding may_leave
stays o none = refl
stays o (some s) = ground (arith, run_beq_iff s s)

pub stop_enters :
    (run_id : String) (p : Option RunStatus) (s : RunStatus)
    → may_leave (op_stop run_id) p (some s) ≡ true
    → can_transition_run s RunStatus.stopping ≡ true
    → may_leave (op_stop run_id) p (some RunStatus.stopping) ≡ true
unfolding may_leave moves_to starts_as
stop_enters run_id none s h k = ground arith
stop_enters run_id (some r) s h k = ground (arith, run_beq_iff r s)

pub stop_ends :
    (run_id : String) (p : Option RunStatus)
    → may_leave (op_stop run_id) p (some RunStatus.stopping) ≡ true
    → may_leave (op_stop run_id) p (some RunStatus.stopped) ≡ true
unfolding may_leave moves_to starts_as can_transition_run
stop_ends run_id none h = ground arith
stop_ends run_id (some r) h = ground arith

pub resume_enters :
    (run_id : String) (p : Option RunStatus) (s : RunStatus)
    → may_leave (op_resume run_id) p (some s) ≡ true
    → can_transition_run s RunStatus.running ≡ true
    → may_leave (op_resume run_id) p (some RunStatus.running) ≡ true
unfolding may_leave moves_to starts_as
resume_enters run_id none s h k = ground arith
resume_enters run_id (some r) s h k = ground (arith, run_beq_iff r s)

pub resume_ends :
    (run_id : String) (p : Option RunStatus)
    → may_leave (op_resume run_id) p (some RunStatus.running) ≡ true
    → (may_leave (op_resume run_id) p (some RunStatus.failed) ≡ true)
      × (may_leave (op_resume run_id) p (some RunStatus.completed) ≡ true)
unfolding may_leave moves_to starts_as can_transition_run
resume_ends run_id none h = ground arith
resume_ends run_id (some r) h = (ground arith, ground arith)

pub restart_enters :
    (dry_run : Bool) (run_id : String) (p : Option RunStatus) (s : RunStatus)
    → may_leave (op_restart dry_run run_id) p (some s) ≡ true
    → can_transition_run s RunStatus.running ≡ true
    → may_leave (op_restart dry_run run_id) p (some RunStatus.running) ≡ true
unfolding may_leave moves_to starts_as
restart_enters dry_run run_id none s h k = ground arith
restart_enters dry_run run_id (some r) s h k = ground (arith, run_beq_iff r s)

pub guide_enters :
    (run_id answer : String) (p : Option RunStatus)
    → may_leave (op_guide run_id answer) p (some RunStatus.awaiting_guidance) ≡ true
    → may_leave (op_guide run_id answer) p (some RunStatus.running) ≡ true
unfolding may_leave moves_to starts_as
guide_enters run_id answer none h = ground arith
guide_enters run_id answer (some r) h = ground arith

-- From `running` or `awaiting_guidance`, the signals may lead to all four statuses.
pub sync_enters :
    (run_id : String) (p : Option RunStatus) (s t : RunStatus)
    → (s == RunStatus.running || s == RunStatus.awaiting_guidance) ≡ true
    → (t == RunStatus.running
        || t == RunStatus.awaiting_guidance
        || t == RunStatus.completed
        || t == RunStatus.failed)
      ≡ true
    → may_leave (op_sync run_id) p (some s) ≡ true
    → may_leave (op_sync run_id) p (some t) ≡ true
unfolding may_leave moves_to starts_as
sync_enters run_id none s t h k m = ground arith
sync_enters run_id (some r) s t h k m = ground (arith, run_beq_iff r s)

pub close_enters :
    (dry_run : Bool) (entry run_id : String) (p : Option RunStatus) (t : RunStatus)
    → may_leave (op_close dry_run entry run_id) p (some RunStatus.completed) ≡ true
    → (t == RunStatus.closing || t == RunStatus.closed || t == RunStatus.failed) ≡ true
    → may_leave (op_close dry_run entry run_id) p (some t) ≡ true
unfolding may_leave moves_to starts_as
close_enters dry_run entry run_id none t h k = ground arith
close_enters dry_run entry run_id (some r) t h k = ground arith
