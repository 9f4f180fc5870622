-- ===== src/Workflow/Tests/Begin.antt =====
-- A final user begins a review cycle of two steps, given out of order.
use sgd_backend.Base.{◌≡◌, refl, none, some, [], ◌∷◌, map, find_if, sort, select, unique}
use sgd_backend.Workflow.Enums.{available_for_final_users}
use sgd_backend.Workflow.Entities.{Workflow, AdminCycle, AdminStep}
use sgd_backend.Workflow.Errors.{ok}
use sgd_backend.Workflow.Store.{Db, find_in_org}
use sgd_backend.Workflow.StateMachine.{can_go, assert_valid_transition}
use sgd_backend.Workflow.StepOrders.{check_orders, has_gap, has_duplicates}
use sgd_backend.Workflow.AdminCycle.Create.{CreateCycleDto, input_order, may_create, create_cycle}
use sgd_backend.Workflow.AdminCycle.Create.Begins.{create_cycle-IsReview}
use sgd_backend.Workflow.AdminCycle.Complete.Rounds.{IsReview}
use sgd_backend.Workflow.Tests.{env, workflow_in, db_of}

abbrev ready_row : Workflow
ready_row = workflow_in available_for_final_users none (some 31)

abbrev ready_db : Db
ready_db = db_of ready_row []

abbrev two_steps : CreateCycleDto
two_steps = record {
  steps = record { user_id = 42; step_order = 2 } ∷ record { user_id = 41; step_order = 1 } ∷ [];
  allowed_optional_reviewer_ids = none;
}

ready_found : find_in_org 1 5 ready_db ≡ some ready_row
unfolding find_in_org find_if
ready_found = refl

may : may_create 31 ready_row ≡ ok tt
unfolding may_create assert_valid_transition can_go
may = refl

checked : check_orders (map input_order two_steps.steps) ≡ ok tt
unfolding check_orders has_gap has_duplicates sort unique select
checked = refl

create_cycle-IsReview_example :
    (db' : Db) × (w' : Workflow) × (c : AdminCycle) × (s : AdminStep) × (create_cycle env 1 31 5
        two_steps ready_db
      ≡ ok db')
    × IsReview 1 0 5 db' w' c s
    × (c.initiated_by ≡ 31)
    × (s.step_order ≡ 1)
create_cycle-IsReview_example =
    create_cycle-IsReview env 1 31 5 two_steps ready_db ready_row ready_found (λ i j e. e) tt tt may
      checked
