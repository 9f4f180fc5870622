-- ===== src/Workflow/StepOrders/Laws.antt =====
-- Which step orders the services accept.
use sgd_backend.Base.{
  ℕ, zero, suc, ◌<◌, ◌≡◌, ◌≢◌, ◌↔◌, refl, sym, ap, subst, ◌∙◌, true, false, not, List, [], ◌∷◌,
  length, head?, some_eq, ◌==◌, ==_refl, sort, length-sort, unique, select, arith,
}
use sgd_backend.Workflow.Errors.{ok, err, bad_request, duplicate_orders}
use sgd_backend.Workflow.StepOrders.{has_gap, has_duplicates, check_orders, count_from, itself}

no_gap : (k : ℕ) (xs : List ℕ) → has_gap (k ∷ xs) ≡ false → xs ≡ count_from (suc k) (length xs)
unfolding has_gap
no_gap k [] h = refl
no_gap k (x ∷ xs) h =
    let same : x ≡ suc k = ground arith in
    let rest = no_gap x xs (ground arith) in rest_of x (suc k) xs same rest
  where
    rest_of :
        (a b : ℕ) (ys : List ℕ)
        → a ≡ b
        → ys ≡ count_from (suc a) (length ys)
        → (a ∷ ys) ≡ b ∷ count_from (suc b) (length ys)
    rest_of a b ys e f =
        subst (λ c. (a ∷ ys) ≡ c ∷ count_from (suc c) (length ys)) e (ap (λ l. a ∷ l) f)

has_gap-count_from : (k n : ℕ) → has_gap (count_from k n) ≡ false
unfolding has_gap
has_gap-count_from k zero = refl
has_gap-count_from k (suc zero) = refl
has_gap-count_from k (suc (suc n)) = ground (arith, has_gap-count_from (suc k) (suc n))

select-count_from :
    (k j n : ℕ) → k < j → select (λ y. not (y == k)) (count_from j n) ≡ count_from j n
unfolding select
select-count_from k j zero h = refl
select-count_from k j (suc n) h = ground (arith, select-count_from k (suc j) n)

unique-count_from : (k n : ℕ) → unique (count_from k n) ≡ count_from k n
unfolding unique
unique-count_from k zero = refl
unique-count_from k (suc n) =
    ap (λ l. k ∷ l)
      (ap (select (λ y. not (y == k))) (unique-count_from (suc k) n)
        ∙ select-count_from k (suc k) n (omega arith))

has_duplicates-count_from : (k n : ℕ) → has_duplicates (count_from k n) ≡ false
unfolding has_duplicates
has_duplicates-count_from k n =
    rw (unique-count_from k n) (ap not (==_refl (length (count_from k n))))

-- The test of both services on the sorted orders.
accepted :
    (ys : List ℕ) → has_gap ys ≡ false → some_eq (head? ys) 1 ≡ true → ys ≡ count_from 1 (length ys)
accepted [] g e = cc
accepted (y ∷ ys) g e =
    let one : y ≡ 1 = ground arith in
    subst (λ k. (y ∷ ys) ≡ k ∷ count_from (suc k) (length ys)) one (ap (λ l. y ∷ l) (no_gap y ys g))

not_empty : (xs : List ℕ) → some_eq (head? (sort itself xs)) 1 ≡ true → xs ≢ []
unfolding sort
not_empty xs t e = let none_left = subst (λ l. some_eq (head? (sort itself l)) 1 ≡ true) e t in cc

check_orders_sound :
    (xs : List ℕ)
    → check_orders xs ≡ ok tt
    → (xs ≢ []) × (sort itself xs ≡ count_from 1 (length xs))
unfolding check_orders
check_orders_sound xs h = (
  not_empty xs (ground arith),
  accepted (sort itself xs) (ground arith) (ground arith)
      ∙ ap (count_from 1) (length-sort itself xs),
)

check_orders_complete :
    (xs : List ℕ) → xs ≢ [] → sort itself xs ≡ count_from 1 (length xs) → check_orders xs ≡ ok tt
unfolding check_orders
check_orders_complete [] some_given e = absurd (some_given refl)
check_orders_complete (x ∷ xs) some_given e = rw e (
    rw (has_gap-count_from 1 (suc (length xs)))
      (rw (has_duplicates-count_from 1 (suc (length xs)))))

-- The check passes exactly when there is a step, and the orders are 1, 2, … up to the number of
-- steps, in some arrangement.
pub check_orders_iff :
    (xs : List ℕ)
    → (check_orders xs ≡ ok tt) ↔ ((xs ≢ []) × (sort itself xs ≡ count_from 1 (length xs)))
check_orders_iff xs = (check_orders_sound xs, λ h. check_orders_complete xs h.0 h.1)

no_duplicates_left :
    (ys : List ℕ) → has_gap ys ≡ false → some_eq (head? ys) 1 ≡ true → has_duplicates ys ≡ false
no_duplicates_left ys g e =
    let run = accepted ys g e in
    subst (λ l. has_duplicates l ≡ false) (sym run) (has_duplicates-count_from 1 (length ys))

-- The answer about duplicates is never given: repeated orders already fail as not consecutive.
pub check_orders-ne-duplicate : (xs : List ℕ) → check_orders xs ≢ err (bad_request duplicate_orders)
unfolding check_orders
check_orders-ne-duplicate xs h = ground (arith, no_duplicates_left (sort itself xs))
