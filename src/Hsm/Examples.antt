-- ===== src/Hsm/Examples.antt =====
-- Concrete runs of the transition tables.
use metawsm.Base.{◌≡◌, true, refl, List, [], ◌∷◌, inl}
use metawsm.Model.Run.{RunStatus, StepStatus}
use metawsm.Hsm.{can_transition_run, can_transition_step}
use metawsm.Hsm.Edges.{settled_step_stays}
use metawsm.Hsm.Reach.{Walk, here, then, InOrder, closing_order, closed_in_reach}

abbrev visited : List RunStatus
visited =
    RunStatus.planning ∷ RunStatus.running ∷ RunStatus.failed ∷ RunStatus.running
    ∷ RunStatus.completed ∷ RunStatus.closing ∷ RunStatus.closed ∷ []

walk : Walk RunStatus.created RunStatus.closed visited
unfolding can_transition_run
walk = then refl (then refl (then refl (then refl (then refl (then refl (then refl here))))))

closing_order_example :
    InOrder
      (RunStatus.planning ∷ RunStatus.running ∷ RunStatus.completed ∷ RunStatus.closing
        ∷ RunStatus.closed ∷ [])
      visited
closing_order_example = closing_order walk

closed_in_reach_example :
    (visited : List RunStatus) × Walk RunStatus.stopping RunStatus.closed visited
closed_in_reach_example = closed_in_reach RunStatus.stopping

done_to_done : can_transition_step StepStatus.done StepStatus.done ≡ true
unfolding can_transition_step
done_to_done = refl

settled_step_stays_example : StepStatus.done ≡ StepStatus.done
settled_step_stays_example =
    settled_step_stays StepStatus.done StepStatus.done done_to_done (inl refl)
