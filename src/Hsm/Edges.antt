-- ===== src/Hsm/Edges.antt =====
-- Where steps and agents stay (internal/hsm/hsm.go).
use metawsm.Base.{◌≡◌, ◌⊎◌, true, arith}
use metawsm.Model.Run.{StepStatus}
use metawsm.Hsm.{can_transition_step}

-- A step that is done or skipped can go to its own status only.
pub settled_step_stays :
    (s t : StepStatus)
    → can_transition_step s t ≡ true
    → (s ≡ StepStatus.done) ⊎ (s ≡ StepStatus.skipped)
    → t ≡ s
unfolding can_transition_step
settled_step_stays s t h k = ground arith
