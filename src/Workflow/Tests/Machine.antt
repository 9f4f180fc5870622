-- ===== src/Workflow/Tests/Machine.antt =====
-- The state machine and the step orders at concrete values.
use sgd_backend.Base.{◌≡◌, ◌≢◌, ◌↔◌, ◌∷◌, [], List, ℕ}
use sgd_backend.Base.{sort}
use sgd_backend.Workflow.Enums.{draft, closed}
use sgd_backend.Workflow.Errors.{ok, err, bad_request, duplicate_orders}
use sgd_backend.Workflow.StateMachine.{assert_valid_transition}
use sgd_backend.Workflow.StateMachine.Graph.{◌⟶◌, assert_valid_transition_iff}
use sgd_backend.Workflow.StepOrders.{itself, check_orders, count_from}
use sgd_backend.Workflow.StepOrders.Laws.{check_orders_iff, check_orders-ne-duplicate}

assert_valid_transition_iff_example :
    (assert_valid_transition draft closed ≡ ok tt) ↔ (draft ⟶ closed)
assert_valid_transition_iff_example = assert_valid_transition_iff draft closed

abbrev two_orders : List ℕ
two_orders = 2 ∷ 1 ∷ []

check_orders_iff_example :
    (check_orders two_orders ≡ ok tt)
    ↔ ((two_orders ≢ []) × (sort itself two_orders ≡ count_from 1 2))
check_orders_iff_example = check_orders_iff two_orders

check_orders-ne-duplicate_example : check_orders (1 ∷ 1 ∷ []) ≢ err (bad_request duplicate_orders)
check_orders-ne-duplicate_example = check_orders-ne-duplicate (1 ∷ 1 ∷ [])
