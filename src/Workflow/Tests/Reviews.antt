-- ===== src/Workflow/Tests/Reviews.antt =====
-- A review cycle of two steps, and the decisions of the final users.
use sgd_backend.Base.{
  ◌≡◌, ◌≢◌, ◌==◌, ◌<◌, ◌≤◌, All, Distinct, refl, some, none, [], ◌∷◌, find_if, select, update_where,
  Memᴰ, count_above, arith,
}
use sgd_backend.Workflow.Enums.{AdminStepStatus, CycleStatus, available_for_final_users}
use sgd_backend.Workflow.Entities.{Workflow, AdminStep}
use sgd_backend.Workflow.Errors.{ok}
use sgd_backend.Workflow.Store.{Db, find_in_org}
use sgd_backend.Workflow.AdminCycle.{StepInput, by_admin_order, find_cycle, admin_steps_of}
use sgd_backend.Workflow.AdminCycle.Create.{CreateCycleDto, create_cycle}
use sgd_backend.Workflow.AdminCycle.Complete.{complete_step}
use sgd_backend.Workflow.AdminCycle.Complete.InOrder.{complete_step_in_order, complete_step_at_end}
use sgd_backend.Workflow.AdminCycle.Complete.Rounds.{
  IsReview, IsReviewed, reviews_after, complete_in_turn, complete_in_turn-IsReviewed,
}
use sgd_backend.Workflow.AdminCycle.Finish.{
  NoteDto, skip_review_cycle, add_note, close_workflow, cancel_workflow,
}
use sgd_backend.Workflow.AdminCycle.Finish.Access.{only_final_users_decide}
use sgd_backend.Workflow.Tests.{
  env, reviewed_row, review, admin_step, review_of, workflow_in, db_of,
}

abbrev one : AdminStep
one = admin_step 71 41 1 AdminStepStatus.active

abbrev two : AdminStep
two = admin_step 72 42 2 AdminStepStatus.idle

abbrev silent : StepInput
silent = record { notes = some "  seen "; attachments = none }

abbrev first_db : Db
first_db = review_of (one ∷ two ∷ [])

abbrev last_two : AdminStep
last_two = admin_step 72 42 2 AdminStepStatus.active

abbrev last_db : Db
last_db = review_of (admin_step 71 41 1 AdminStepStatus.done ∷ last_two ∷ [])

first_found : find_in_org 1 5 first_db ≡ some reviewed_row
unfolding find_in_org find_if
first_found = refl

first_listed : find_if (λ x. x.id == 71) (admin_steps_of 60 first_db) ≡ some one
unfolding find_if admin_steps_of select
first_listed = refl

first_cycle : find_cycle 60 1 first_db ≡ some review
unfolding find_cycle find_if
first_cycle = refl

first_orders : Distinct by_admin_order (admin_steps_of 60 first_db)
unfolding admin_steps_of select
first_orders = ((λ e. absurd (omega arith), tt), (tt, tt))

two_listed : Memᴰ two (admin_steps_of 60 first_db)
unfolding admin_steps_of select
two_listed = Memᴰ.tail (Memᴰ.head refl)

two_least : All (λ x. 1 < x.step_order → 2 ≤ x.step_order) (admin_steps_of 60 first_db)
unfolding admin_steps_of select
two_least = (λ low. absurd (omega arith), (λ low. omega arith, tt))

complete_step_in_order_example :
    (db' : Db) × (complete_step env 1 60 71 41 5 silent first_db ≡ ok db')
    × (find_in_org 1 5 db' ≡ some (record reviewed_row { current_assigned_user_id = some 42 }))
    × (find_cycle 60 1 db' ≡ some (record review { current_step_order = some 2 }))
    × (admin_steps_of 60 db'
        ≡ update_where
            (λ x. x.id == 72)
            (λ x. record x { status = AdminStepStatus.active })
            (update_where
              (λ x. x.id == 71)
              (λ x. record x { status = AdminStepStatus.done; completed_at = some 1000 })
              (admin_steps_of 60 first_db)))
complete_step_in_order_example =
    complete_step_in_order env 1 60 71 41 5 silent first_db reviewed_row review one first_found refl
      first_cycle refl first_listed refl refl two first_orders two_listed (omega arith) two_least

last_found : find_in_org 1 5 last_db ≡ some reviewed_row
unfolding find_in_org find_if
last_found = refl

last_listed : find_if (λ x. x.id == 72) (admin_steps_of 60 last_db) ≡ some last_two
unfolding find_if admin_steps_of select
last_listed = refl

last_cycle : find_cycle 60 1 last_db ≡ some review
unfolding find_cycle find_if
last_cycle = refl

none_later : All (λ x. x.step_order ≤ 2) (admin_steps_of 60 last_db)
unfolding admin_steps_of select
none_later = (omega arith, (omega arith, tt))

complete_step_at_end_example :
    (db' : Db) × (complete_step env 1 60 72 42 5 silent last_db ≡ ok db')
    × (find_in_org 1 5 db'
        ≡ some (record reviewed_row {
          status = available_for_final_users;
          active_admin_cycle_id = none;
          current_assigned_user_id = some 31;
        }))
    × (find_cycle 60 1 db'
        ≡ some (record review {
          status = CycleStatus.completed;
          current_step_order = none;
          completed_at = some 1000;
        }))
    × (admin_steps_of 60 db'
        ≡ update_where
            (λ x. x.id == 72)
            (λ x. record x { status = AdminStepStatus.done; completed_at = some 1000 })
            (admin_steps_of 60 last_db))
complete_step_at_end_example =
    complete_step_at_end env 1 60 72 42 5 silent last_db reviewed_row review last_two last_found
      refl last_cycle refl last_listed refl refl none_later

abbrev ready_row : Workflow
ready_row = workflow_in available_for_final_users none (some 31)

abbrev ready_db : Db
ready_db = db_of ready_row []

ready_in_org : find_in_org 1 5 ready_db ≡ some ready_row
unfolding find_in_org find_if
ready_in_org = refl

abbrev one_step : CreateCycleDto
one_step = record {
  steps = record { user_id = 41; step_order = 1 } ∷ [];
  allowed_optional_reviewer_ids = none;
}

abbrev a_note : NoteDto
a_note = record { content = some "done"; attachments = none }

only_final_users_decide_example :
    (create_cycle env 1 99 5 one_step ready_db ≢ ok ready_db)
    × (skip_review_cycle 1 99 5 ready_db ≢ ok ready_db)
    × (add_note env 1 99 5 a_note ready_db ≢ ok ready_db)
    × (close_workflow env 1 99 5 none ready_db ≢ ok ready_db)
    × (cancel_workflow env 1 99 5 "no" ready_db ≢ ok ready_db)
only_final_users_decide_example =
    only_final_users_decide 1 99 5 ready_db ready_row ready_in_org refl env one_step a_note none
      "no" ready_db

first-IsReview : IsReview 1 60 5 first_db reviewed_row review one
unfolding admin_steps_of select find_cycle find_if
first-IsReview = record {
  found = first_found;
  status = refl;
  assigned = refl;
  cycle_found = refl;
  running = refl;
  queue = record {
    listed = Memᴰ.head refl;
    fits = (
      (λ h. absurd (omega arith), λ h. refl, λ h. absurd (omega arith)),
      ((λ h. absurd (omega arith), λ h. absurd (omega arith), λ h. refl), tt),
    );
    ids = ((λ h. absurd (omega arith), tt), (tt, tt));
    orders = ((λ h. absurd (omega arith), tt), (tt, tt));
  };
}

one_review_left : reviews_after one (admin_steps_of 60 first_db) ≡ 1
unfolding admin_steps_of select count_above
one_review_left = refl

complete_in_turn-IsReviewed_example :
    (db' : Db) × (complete_in_turn env 1 60 5 silent 2 first_db ≡ ok db') × IsReviewed 1 60 5 31 db'
complete_in_turn-IsReviewed_example =
    complete_in_turn-IsReviewed env 1 60 5 silent 1 first_db reviewed_row review one first-IsReview
      one_review_left
