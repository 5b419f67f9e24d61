-- ===== src/Hsm/Reach.antt =====
-- Paths of permitted run transitions (internal/hsm/hsm.go).
use metawsm.Base.{◌≡◌, refl, true, List, [], ◌∷◌}
use metawsm.Model.Run.{RunStatus}
use metawsm.Hsm.{can_transition_run}

-- A path through the statuses, each transition permitted, with the statuses that it enters.
pub data Walk : RunStatus → RunStatus → List RunStatus → Type 0 where
  here : {s : RunStatus} → Walk s s []
  then :
      {s t u : RunStatus} {visited : List RunStatus}
      → can_transition_run s t ≡ true
      → Walk t u visited
      → Walk s u (t ∷ visited)

-- The first list lies in the second, in order, with others between.
pub data InOrder : List RunStatus → List RunStatus → Type 0 where
  none : {visited : List RunStatus} → InOrder [] visited
  keep :
      {s : RunStatus} {wanted visited : List RunStatus}
      → InOrder wanted visited
      → InOrder (s ∷ wanted) (s ∷ visited)
  skip :
      {s : RunStatus} {wanted visited : List RunStatus}
      → InOrder wanted visited
      → InOrder wanted (s ∷ visited)

InOrder-tail :
    {s : RunStatus} {wanted visited : List RunStatus}
    → InOrder (s ∷ wanted) visited
    → InOrder wanted visited
InOrder-tail (keep h) = skip h
InOrder-tail (skip h) = skip (InOrder-tail h)

-- What a run in this status has still to enter before it is closed.
abbrev pub milestones : RunStatus → List RunStatus
milestones RunStatus.created =
    RunStatus.planning ∷ RunStatus.running ∷ RunStatus.completed ∷ RunStatus.closing
    ∷ RunStatus.closed ∷ []
milestones RunStatus.running = RunStatus.completed ∷ RunStatus.closing ∷ RunStatus.closed ∷ []
milestones RunStatus.completed = RunStatus.closing ∷ RunStatus.closed ∷ []
milestones RunStatus.closing = RunStatus.closed ∷ []
milestones RunStatus.closed = []
milestones _ = RunStatus.running ∷ RunStatus.completed ∷ RunStatus.closing ∷ RunStatus.closed ∷ []

milestones-step :
    (s t : RunStatus) (visited : List RunStatus)
    → can_transition_run s t ≡ true
    → InOrder (milestones t) visited
    → InOrder (milestones s) (t ∷ visited)
unfolding can_transition_run
milestones-step RunStatus.created RunStatus.planning visited h v = keep v
milestones-step RunStatus.created _ visited h v = first_of (cc, search skip)
milestones-step RunStatus.planning RunStatus.running visited h v = keep v
milestones-step RunStatus.planning _ visited h v = first_of (cc, search skip)
milestones-step RunStatus.running RunStatus.completed visited h v = keep v
milestones-step RunStatus.running _ visited h v = first_of (cc, search (skip, InOrder-tail))
milestones-step RunStatus.awaiting_guidance RunStatus.running visited h v = keep v
milestones-step RunStatus.awaiting_guidance _ visited h v = first_of (cc, search skip)
milestones-step RunStatus.paused RunStatus.running visited h v = keep v
milestones-step RunStatus.paused _ visited h v = first_of (cc, search skip)
milestones-step RunStatus.failed RunStatus.running visited h v = keep v
milestones-step RunStatus.failed _ visited h v = first_of (cc, search skip)
milestones-step RunStatus.stopping RunStatus.stopped visited h v = skip v
milestones-step RunStatus.stopping _ visited h v = first_of (cc, search skip)
milestones-step RunStatus.stopped RunStatus.running visited h v = keep v
milestones-step RunStatus.stopped _ visited h v = first_of (cc, search skip)
milestones-step RunStatus.completed RunStatus.closing visited h v = keep v
milestones-step RunStatus.completed _ visited h v = first_of (cc, search (skip, InOrder-tail))
milestones-step RunStatus.closing RunStatus.closed visited h v = keep v
milestones-step RunStatus.closing _ visited h v = first_of (cc, search (skip, InOrder-tail))
milestones-step RunStatus.closed _ visited h v = none

milestones-path :
    {s u : RunStatus} {visited : List RunStatus}
    → Walk s u visited
    → u ≡ RunStatus.closed
    → InOrder (milestones s) visited
milestones-path {s} here e = closed_done s e
  where
    closed_done : (s : RunStatus) → s ≡ RunStatus.closed → InOrder (milestones s) []
    closed_done RunStatus.closed e = none
    closed_done _ e = cc
milestones-path {s} (then {t = t} {visited = visited} h p) e =
    milestones-step s t visited h (milestones-path p e)

-- A run that comes from `created` to `closed` by permitted transitions enters `planning`,
-- `running`, `completed`, `closing` and `closed` in this order, whatever it enters between.
pub closing_order :
    {visited : List RunStatus}
    → Walk RunStatus.created RunStatus.closed visited
    → InOrder
        (RunStatus.planning ∷ RunStatus.running ∷ RunStatus.completed ∷ RunStatus.closing
          ∷ RunStatus.closed ∷ [])
        visited
closing_order p = milestones-path p refl

from_running :
    Walk RunStatus.running RunStatus.closed
      (RunStatus.completed ∷ RunStatus.closing ∷ RunStatus.closed ∷ [])
unfolding can_transition_run
from_running = then refl (then refl (then refl here))

-- From every status of a run the table has a path of permitted transitions to `closed`.
pub closed_in_reach : (s : RunStatus) → (visited : List RunStatus) × Walk s RunStatus.closed visited
unfolding can_transition_run
closed_in_reach RunStatus.created = (_, then {t = RunStatus.planning} refl (then refl from_running))
closed_in_reach RunStatus.completed = (_, then {t = RunStatus.running} refl from_running)
closed_in_reach RunStatus.running = (_, from_running)
closed_in_reach RunStatus.closing = (_, then refl here)
closed_in_reach RunStatus.closed = (_, here)
closed_in_reach RunStatus.stopping = (_, then {t = RunStatus.stopped} refl (then refl from_running))
closed_in_reach _ = (_, then refl from_running)
