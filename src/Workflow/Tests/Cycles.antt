-- ===== src/Workflow/Tests/Cycles.antt =====
-- The insertion of an optional reviewer in review cycles of two and of three steps.
use sgd_backend.Base.{
  ◌≡◌, refl, suc, ◌==◌, ◌&&◌, leb, none, List, [], ◌∷◌, ◌++◌, arith, find_if, select, update_where,
  trimmed, if◌then◌else◌,
}
use sgd_backend.Workflow.Enums.{AdminStepStatus}
use sgd_backend.Workflow.Entities.{AdminStep}
use sgd_backend.Workflow.Errors.{ok, err, internal, unique_violation}
use sgd_backend.Workflow.Store.{Db, find_in_org}
use sgd_backend.Workflow.AdminCycle.{
  StepInput, leave_note, leave_attachments, leave_input, find_cycle, admin_steps_of,
}
use sgd_backend.Workflow.AdminCycle.Complete.{find_own_step}
use sgd_backend.Workflow.AdminCycle.Forward.{is_taken, shift_rows, forward_step}
use sgd_backend.Workflow.AdminCycle.Forward.Shift.{UniqueOrders, meets_successor, shift_rows_lem}
use sgd_backend.Workflow.AdminCycle.Forward.Orders.{forward_step-UniqueOrders}
use sgd_backend.Workflow.Lifecycle.{after}
use sgd_backend.Workflow.Tests.{env, admin_step, review_of}

abbrev two_steps : List AdminStep
two_steps = admin_step 71 41 1 AdminStepStatus.active ∷ admin_step 72 42 2 AdminStepStatus.idle ∷ []

abbrev three_steps : List AdminStep
three_steps = two_steps ++ admin_step 73 43 3 AdminStepStatus.idle ∷ []

abbrev silent : StepInput
silent = record { notes = none; attachments = none }

two-UniqueOrders : UniqueOrders 60 two_steps
unfolding select
two-UniqueOrders = ((λ h. absurd (omega arith), tt), (tt, tt))

three-UniqueOrders : UniqueOrders 60 three_steps
unfolding select
three-UniqueOrders = (
  (λ h. absurd (omega arith), (λ h. absurd (omega arith), tt)),
  ((λ h. absurd (omega arith), tt), (tt, tt)),
)

shift_rows_lem_example : shift_rows 60 2 [] three_steps ≡ (
    if meets_successor 60 2 three_steps
    then err (internal unique_violation)
    else ok (
        update_where
          (λ r. r.cycle_id == 60 && leb 2 r.step_order)
          (λ r. record r { step_order = suc r.step_order })
          three_steps))
shift_rows_lem_example = shift_rows_lem 60 2 three_steps three-UniqueOrders

-- With two steps after the one that forwards, stored in their order, the UPDATE fails.
three_steps_fail :
    forward_step env 1 60 71 41 5 silent 51 (review_of three_steps)
    ≡ err (internal unique_violation)
unfolding forward_step find_in_org find_if find_own_step find_cycle admin_steps_of select
    leave_input leave_note leave_attachments shift_rows is_taken trimmed
three_steps_fail = refl

-- With one step after it the UPDATE passes.
abbrev forwarded : Db
forwarded =
    after (review_of two_steps) (forward_step env 1 60 71 41 5 silent 51 (review_of two_steps))

two_steps_pass : forward_step env 1 60 71 41 5 silent 51 (review_of two_steps) ≡ ok forwarded
unfolding forward_step find_in_org find_if find_own_step find_cycle admin_steps_of select
    leave_input leave_note leave_attachments shift_rows is_taken trimmed
two_steps_pass = refl

forward_step-UniqueOrders_example : UniqueOrders 60 forwarded.admin_steps
forward_step-UniqueOrders_example =
    forward_step-UniqueOrders env 1 60 71 41 5 silent 51 (review_of two_steps) forwarded
      two-UniqueOrders two_steps_pass
