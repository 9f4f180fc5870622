-- ===== src/Workflow/AdminCycle/Create/Rows.antt =====
-- The rows of the steps that `createCycle` makes.
use sgd_backend.Base.{
  ℕ, suc, ◌<◌, ◌≡◌, ◌≢◌, refl, ◌∙◌, false, List, [], ◌∷◌, ◌++◌, map, length, All, Distinct, select,
  select-append, ==_refl, arith,
}
use sgd_backend.Workflow.Entities.{AdminStep}
use sgd_backend.Workflow.StepOrders.{count_from}
use sgd_backend.Workflow.AdminCycle.{in_cycle, by_admin_order}
use sgd_backend.Workflow.AdminCycle.Create.{AdminStepInput, input_order, step_rows}
use sgd_backend.Workflow.AdminCycle.Complete.Queue.{by_id, Fits}

module _ (uuid : ℕ → ℕ) (cycle workflow : ℕ) where
  step_rows-in_cycle :
      (k : ℕ) (ss : List AdminStepInput)
      → select (in_cycle cycle) (step_rows uuid k cycle workflow ss)
        ≡ step_rows uuid k cycle workflow ss
  unfolding step_rows select
  step_rows-in_cycle k [] = refl
  step_rows-in_cycle k (s ∷ ss) = rw (==_refl cycle, step_rows-in_cycle (suc k) ss) refl

  select-none :
      (rows : List AdminStep)
      → All (λ r. in_cycle cycle r ≡ false) rows
      → select (in_cycle cycle) rows ≡ []
  unfolding select
  select-none [] h = refl
  select-none (r ∷ rs) h = rw h.0 (select-none rs h.1)

  -- Of the whole table, only the new rows belong to the new cycle.
  pub select-step_rows :
      (k : ℕ) (ss : List AdminStepInput) (rows : List AdminStep)
      → All (λ r. in_cycle cycle r ≡ false) rows
      → select (in_cycle cycle) (rows ++ step_rows uuid k cycle workflow ss)
        ≡ step_rows uuid k cycle workflow ss
  select-step_rows k ss rows h =
      select-append (in_cycle cycle) rows (step_rows uuid k cycle workflow ss)
      ∙ rw (select-none rows h) (step_rows-in_cycle k ss)

  pub step_rows-Fits :
      (k m : ℕ) (ss : List AdminStepInput)
      → map input_order ss ≡ count_from (suc m) (length ss)
      → All (Fits 1) (step_rows uuid k cycle workflow ss)
  unfolding step_rows
  step_rows-Fits k m [] e = tt
  step_rows-Fits k m (s ∷ ss) e =
      let first : s.step_order ≡ suc m = cc in (ground arith, step_rows-Fits (suc k) (suc m) ss cc)

  pub step_rows-orders :
      (k m : ℕ) (ss : List AdminStepInput)
      → map input_order ss ≡ count_from m (length ss)
      → Distinct by_admin_order (step_rows uuid k cycle workflow ss)
  unfolding step_rows
  step_rows-orders k m [] e = tt
  step_rows-orders k m (s ∷ ss) e =
      let first : s.step_order ≡ m = cc in
      let lt : s.step_order < suc m = omega arith in
      (above (suc k) (suc m) ss (cc) lt, step_rows-orders (suc k) (suc m) ss cc)
    where
      above :
          (j l : ℕ) (ts : List AdminStepInput)
          → map input_order ts ≡ count_from l (length ts)
          → s.step_order < l
          → All
              (λ (y : AdminStep). s.step_order ≢ y.step_order)
              (step_rows uuid j cycle workflow ts)
      above j l [] e lt = tt
      above j l (t ∷ ts) e lt =
          let first : t.step_order ≡ l = cc in
          let later : s.step_order < suc l = omega arith in
          (λ same. absurd (omega arith), above (suc j) (suc l) ts (cc) later)

  pub step_rows-ids :
      ((i j : ℕ) → uuid i ≡ uuid j → i ≡ j)
      → (k : ℕ) (ss : List AdminStepInput) → Distinct by_id (step_rows uuid k cycle workflow ss)
  unfolding step_rows
  step_rows-ids unique k [] = tt
  step_rows-ids unique k (s ∷ ss) =
      (apart k (suc k) ss (omega arith), step_rows-ids unique (suc k) ss)
    where
      apart :
          (i j : ℕ) (ts : List AdminStepInput)
          → i < j
          → All (λ (y : AdminStep). uuid i ≢ y.id) (step_rows uuid j cycle workflow ts)
      apart i j [] lt = tt
      apart i j (t ∷ ts) lt = (
        λ same. let equal = unique i j same in absurd (omega arith),
        apart i (suc j) ts (omega arith),
      )
