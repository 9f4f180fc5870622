-- ===== src/Workflow/AdminCycle/Forward/Shift.antt =====
-- The bulk UPDATE of `forwardStep`: when it succeeds, and what it leaves.
use sgd_backend.Base.{
  ℕ, suc, ◌≡◌, ◌≢◌, refl, sym, ap, ◌∙◌, inl, inr, Bool, true, false, ◌&&◌, ◌||◌, ◌==◌, leb,
  Bool-cases, List, [], ◌∷◌, ◌++◌, All, All-of, All-imp, All-zip, Distinct, select, update_where,
  if◌then◌else◌, arith,
}
use mathlib.Core.List.{append_assoc, append-nil}
use sgd_backend.Workflow.Entities.{AdminStep}
use sgd_backend.Workflow.Errors.{Result, ok, err, internal, unique_violation}
use sgd_backend.Workflow.AdminCycle.{in_cycle, by_admin_order}
use sgd_backend.Workflow.AdminCycle.Forward.{is_taken, one_later, is_shifted, shift_rows}

-- Some row of the cycle has this order.
unfoldable pub has_order : (cycle order : ℕ) → List AdminStep → Bool
has_order cycle order [] = false
has_order cycle order (r ∷ rs) =
    (r.cycle_id == cycle && r.step_order == order) || has_order cycle order rs

-- Some row of the cycle, with this order or a later one, stands before the row of its cycle that has
-- the next order.
unfoldable pub meets_successor : (cycle order : ℕ) → List AdminStep → Bool
meets_successor cycle order [] = false
meets_successor cycle order (r ∷ rs) =
    (r.cycle_id == cycle && leb order r.step_order && has_order cycle (suc r.step_order) rs)
    || meets_successor cycle order rs

is_taken-eq-has_order :
    (cycle order : ℕ) (rows : List AdminStep)
    → is_taken cycle order rows ≡ has_order cycle order rows
unfolding is_taken has_order
is_taken-eq-has_order cycle order [] = refl
is_taken-eq-has_order cycle order (r ∷ rs) = rw (is_taken-eq-has_order cycle order rs) refl

-- The two outcomes of the UPDATE.
abbrev outcome : Bool → List AdminStep → Result (List AdminStep)
outcome failed rows = if failed then err (internal unique_violation) else ok rows

same_result :
    (failed : Bool) (xs ys : List AdminStep) → xs ≡ ys → outcome failed xs ≡ outcome failed ys
same_result failed xs ys e = ap (outcome failed) e

module _ (cycle : ℕ) where
  -- UNIQUE (cycle_id, step_order), for one cycle.
  abbrev pub UniqueOrders : List AdminStep → Type 0
  UniqueOrders rows = Distinct by_admin_order (select (in_cycle cycle) rows)

  is_taken-append :
      (k : ℕ) (xs ys : List AdminStep)
      → is_taken cycle k (xs ++ ys) ≡ (is_taken cycle k xs || is_taken cycle k ys)
  unfolding is_taken
  is_taken-append k [] ys = refl
  is_taken-append k (x ∷ xs) ys = ground (arith, is_taken-append k xs ys)

  apart_of :
      (k : ℕ) (rs : List AdminStep)
      → All (λ (y : AdminStep). k ≢ y.step_order) (select (in_cycle cycle) rs)
      → All (λ (y : AdminStep). in_cycle cycle y ≡ true → k ≢ y.step_order) rs
  unfolding select
  apart_of k [] h = tt
  apart_of k (r ∷ rs) h = elim (Bool-cases (in_cycle cycle r)) [
    | inl t ↦
        let both : All (λ (y : AdminStep). k ≢ y.step_order) (r ∷ select (in_cycle cycle) rs) =
          rw t at h in
        (λ _. both.0, apart_of k rs both.1)
    | inr f ↦ (λ t. let wrong : true ≡ false = sym t ∙ f in cc, apart_of k rs (rw f at h))
  ]

  UniqueOrders-tail :
      (r : AdminStep) (rs : List AdminStep) → UniqueOrders (r ∷ rs) → UniqueOrders rs
  unfolding select
  UniqueOrders-tail r rs d = elim (Bool-cases (in_cycle cycle r)) [
    | inl t ↦
        let both : Distinct by_admin_order (r ∷ select (in_cycle cycle) rs) = rw t at d in both.1
    | inr f ↦ rw f at d
  ]

  UniqueOrders-head :
      (r : AdminStep) (rs : List AdminStep)
      → UniqueOrders (r ∷ rs)
      → in_cycle cycle r ≡ true
      → All (λ (y : AdminStep). in_cycle cycle y ≡ true → r.step_order ≢ y.step_order) rs
  unfolding select
  UniqueOrders-head r rs d t =
      let both : Distinct by_admin_order (r ∷ select (in_cycle cycle) rs) = rw t at d in
      apart_of r.step_order rs both.0

  -- The rows already visited are in the way of none of the rows to come.
  Cleared : (order : ℕ) → (visited rest : List AdminStep) → Type 0
  Cleared order visited rest =
      All
        (λ (q : AdminStep).
          is_shifted cycle order q ≡ true → is_taken cycle (suc q.step_order) visited ≡ false)
        rest

  module _ (order : ℕ) where
    Cleared-moved :
        (visited : List AdminStep) (r : AdminStep) (rs : List AdminStep)
        → is_shifted cycle order r ≡ true
        → UniqueOrders (r ∷ rs)
        → Cleared order visited rs
        → Cleared order (visited ++ one_later r ∷ []) rs
    unfolding Cleared is_taken
    Cleared-moved visited r rs shifted d clear =
        All-imp _ _
          (λ q both s.
            let apart = both.0 (ground arith) in
            let free = both.1 s in
            is_taken-append (suc q.step_order) visited (one_later r ∷ []) ∙ ground arith)
          rs (All-zip _ _ rs (UniqueOrders-head r rs d (ground arith)) clear)

    Cleared-kept :
        (visited : List AdminStep) (r : AdminStep) (rs : List AdminStep)
        → is_shifted cycle order r ≡ false
        → Cleared order visited rs
        → Cleared order (visited ++ r ∷ []) rs
    unfolding Cleared is_taken
    Cleared-kept visited r rs kept clear =
        All-imp _ _
          (λ q free s.
            let free = free s in is_taken-append (suc q.step_order) visited (r ∷ []) ∙ ground arith)
          rs clear

    shift_rows_step :
        (visited : List AdminStep) (rest : List AdminStep)
        → UniqueOrders rest
        → Cleared order visited rest
        → shift_rows cycle order visited rest ≡ (
            if meets_successor cycle order rest
            then err (internal unique_violation)
            else ok (visited ++ update_where (is_shifted cycle order) one_later rest))
    unfolding shift_rows meets_successor update_where Cleared
    shift_rows_step visited [] d clear = ap ok (sym (append-nil visited))
    shift_rows_step visited (r ∷ rs) d clear = elim (Bool-cases (is_shifted cycle order r)) [
      | inl t ↦ elim (Bool-cases (has_order cycle (suc r.step_order) rs)) [
        | inl taken ↦
            let free = clear.0 t in
            rw
              (
                t,
                is_taken-append (suc r.step_order) visited rs,
                free,
                is_taken-eq-has_order cycle (suc r.step_order) rs,
                taken,
              )
              refl
        | inr room ↦
            let free = clear.0 t in
            rw
              (
                t,
                is_taken-append (suc r.step_order) visited rs,
                free,
                is_taken-eq-has_order cycle (suc r.step_order) rs,
                room,
              )
              (shift_rows_step (visited ++ one_later r ∷ []) rs (UniqueOrders-tail r rs d)
                  (Cleared-moved visited r rs t d clear.1)
                ∙ same_result (meets_successor cycle order rs) _ _ (
                    append_assoc visited (one_later r ∷ [])
                      (update_where (is_shifted cycle order) one_later rs)))
      ]
      | inr f ↦ rw f (
          shift_rows_step (visited ++ r ∷ []) rs (UniqueOrders-tail r rs d)
            (Cleared-kept visited r rs f clear.1)
          ∙ same_result (meets_successor cycle order rs) _ _
              (append_assoc visited (r ∷ []) (update_where (is_shifted cycle order) one_later rs)))
    ]

  -- Let the orders of the steps of the cycle be distinct, as the constraint asks. Then the UPDATE of
  -- `forwardStep`, visiting the rows one after the other, raises a unique violation exactly when
  -- some row of the cycle with the given order or a later one stands before the row with the next
  -- order; otherwise it adds one to the order of every row of the cycle from the given order on, and
  -- leaves all else alone.
  pub shift_rows_lem :
      (order : ℕ) (rows : List AdminStep)
      → UniqueOrders rows
      → shift_rows cycle order [] rows ≡ (
          if meets_successor cycle order rows
          then err (internal unique_violation)
          else ok (
              update_where
                (λ r. r.cycle_id == cycle && leb order r.step_order)
                (λ r. record r { step_order = suc r.step_order })
                rows))
  unfolding Cleared is_taken
  shift_rows_lem order rows d = shift_rows_step order [] rows d (All-of _ (λ q s. refl) rows)
