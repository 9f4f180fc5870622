-- ===== src/Workflow/StepOrders.antt =====
-- The check of step orders: `validateApproverStepOrders` of workflows.service.ts, and the first
-- lines of `createCycle` of workflow-admin-cycle.service.ts.
pub mod Laws
use sgd_backend.Base.{
  ℕ, zero, suc, Bool, false, not, ◌&&◌, ◌||◌, List, [], ◌∷◌, length, head?, some_eq, ◌==◌, sort,
  unique,
}
use sgd_backend.Workflow.Errors.{
  Result, ◌>>◌, ◌>>=◌, guard, bad_request, orders_not_consecutive, duplicate_orders,
}

abbrev pub itself : ℕ → ℕ
itself n = n

-- `orders.some((o, i) => i > 0 && o !== orders[i - 1] + 1)`
unfoldable pub has_gap : List ℕ → Bool
has_gap [] = false
has_gap (x ∷ []) = false
has_gap (x ∷ y ∷ ys) = not (y == suc x) || has_gap (y ∷ ys)

-- `new Set(orders).size !== orders.length`
unfoldable pub has_duplicates : List ℕ → Bool
has_duplicates xs = not (length (unique xs) == length xs)

unfoldable pub check_orders : List ℕ → Result (Unit {0})
unfolding has_gap has_duplicates
check_orders given =
    let orders = sort itself given in
    do
      guard (not (has_gap orders) && some_eq (head? orders) 1) (bad_request orders_not_consecutive)
      guard (not (has_duplicates orders)) (bad_request duplicate_orders)

-- `k`, `k + 1`, … : `n` numbers.
abbrev pub count_from : ℕ → ℕ → List ℕ
count_from k zero = []
count_from k (suc n) = k ∷ count_from (suc k) n
