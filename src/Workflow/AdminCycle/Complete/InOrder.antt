-- ===== src/Workflow/AdminCycle/Complete/InOrder.antt =====
-- One call of `completeStep`, in terms of the orders of the steps and of what is stored.
use sgd_backend.Base.{
  ℕ, ◌≡◌, ◌<◌, ◌≤◌, sym, ap, ◌∙◌, false, inl, inr, Option-cases, none, some, List, All, Memᴰ,
  Memᴰ-All, Distinct, Distinct-only, ltb, ◌==◌, find_if, find_if-none, sort, sort-All, update_where,
  arith,
}
use sgd_backend.Workflow.Enums.{
  admin_cycle_in_progress, available_for_final_users, AdminStepStatus, CycleStatus,
}
use sgd_backend.Workflow.Entities.{Workflow, AdminCycle, AdminStep}
use sgd_backend.Workflow.Errors.{ok}
use sgd_backend.Workflow.Store.{Db, Env, find_in_org}
use sgd_backend.Workflow.AdminCycle.{StepInput, by_admin_order, find_cycle, admin_steps_of}
use sgd_backend.Workflow.AdminCycle.Complete.{next_admin_step, find_own_step, complete_step}
use sgd_backend.Workflow.AdminCycle.Complete.Turns.{complete_step-next, complete_step-last}
use sgd_backend.Workflow.AdminCycle.Complete.Queue.{
  next_admin_step-Memᴰ, next_admin_step-lt, next_admin_step-least,
}

module _ (k : ℕ) (steps : List AdminStep) where
  some_later :
      (n : AdminStep) → next_admin_step k steps ≡ none → Memᴰ n steps → k < n.step_order → ⊥
  unfolding next_admin_step
  some_later n e mem above =
      let none_above =
        sort-All by_admin_order _ steps (find_if-none _ (sort by_admin_order steps) e) in
      let not_above : ltb k n.step_order ≡ false = Memᴰ-All _ steps mem none_above in
      absurd (ground arith)

  -- The least of the steps above is the next one.
  next_admin_step-is :
      (n : AdminStep)
      → Distinct by_admin_order steps
      → Memᴰ n steps
      → k < n.step_order
      → All (λ x. k < x.step_order → n.step_order ≤ x.step_order) steps
      → next_admin_step k steps ≡ some n
  next_admin_step-is n d mem above least = elim (Option-cases (next_admin_step k steps)) [
    | inl e ↦ absurd (some_later n e mem above)
    | inr (m, e) ↦
        let there = next_admin_step-Memᴰ k steps e in
        let high = next_admin_step-lt k steps e in
        let low : m.step_order ≤ n.step_order =
          Memᴰ-All _ steps mem (next_admin_step-least k steps e) above in
        let low' : n.step_order ≤ m.step_order = Memᴰ-All _ steps there least high in
        let same : n ≡ m =
          Memᴰ-All _ steps mem (Distinct-only by_admin_order steps d there) (omega arith) in
        e ∙ ap (λ x. some x) (sym same)
  ]

  next_admin_step-over : All (λ x. x.step_order ≤ k) steps → next_admin_step k steps ≡ none
  next_admin_step-over low = elim (Option-cases (next_admin_step k steps)) [
    | inl e ↦ e
    | inr (m, e) ↦
        let high = next_admin_step-lt k steps e in
        let under : m.step_order ≤ k = Memᴰ-All _ steps (next_admin_step-Memᴰ k steps e) low in
        absurd (omega arith)
  ]

module _ (env : Env) (id cycle step user org : ℕ) (dto : StepInput) (db : Db) (w : Workflow)
    (c : AdminCycle) (s : AdminStep) (found : find_in_org id org db ≡ some w)
    (status : w.status ≡ admin_cycle_in_progress) (in_cycles : find_cycle cycle id db ≡ some c)
    (going_on : c.status ≡ CycleStatus.in_progress)
    (listed : find_if (λ x. x.id == step) (admin_steps_of cycle db) ≡ some s)
    (own : s.user_id ≡ user) (pending : s.status ≡ AdminStepStatus.active) where
  passes_checks : find_own_step id cycle step user db ≡ ok (c, s)
  unfolding find_own_step
  passes_checks = ground (arith, in_cycles, going_on, listed, own, pending)

  -- A reviewer completes an own pending step of a cycle in progress of a workflow in
  -- ADMIN_CYCLE_IN_PROGRESS, the orders of the cycle's steps are distinct and `n` is the first in
  -- order of the later ones. Then the call succeeds, the step is COMPLETED at that time, `n` is PENDING,
  -- no other step changes, the cycle points to the order of `n`, and the workflow is assigned to the
  -- reviewer of `n`.
  pub complete_step_in_order :
      (n : AdminStep)
      → Distinct by_admin_order (admin_steps_of cycle db)
      → Memᴰ n (admin_steps_of cycle db)
      → s.step_order < n.step_order
      → All
          (λ x. s.step_order < x.step_order → n.step_order ≤ x.step_order)
          (admin_steps_of cycle db)
      → (db' : Db) × (complete_step env id cycle step user org dto db ≡ ok db')
        × (find_in_org id org db' ≡ some (record w { current_assigned_user_id = some n.user_id }))
        × (find_cycle cycle id db' ≡ some (record c { current_step_order = some n.step_order }))
        × (admin_steps_of cycle db'
            ≡ update_where
                (λ x. x.id == n.id)
                (λ x. record x { status = AdminStepStatus.active })
                (update_where
                  (λ x. x.id == s.id)
                  (λ x. record x { status = AdminStepStatus.done; completed_at = some env.now })
                  (admin_steps_of cycle db)))
  complete_step_in_order n d mem above least =
      complete_step-next env id cycle step user org dto db w c s found status passes_checks n
        (next_admin_step-is s.step_order (admin_steps_of cycle db) n d mem above least)

  -- A reviewer completes an own pending step of a cycle in progress of a workflow in
  -- ADMIN_CYCLE_IN_PROGRESS, and no step of the cycle is later in order. Then the call succeeds, the
  -- step is COMPLETED at that time and no other step changes, the cycle is COMPLETED at that time and
  -- points to no step, and the workflow is AVAILABLE_FOR_FINAL_USERS, with no active cycle, assigned to
  -- the final user who began the cycle.
  pub complete_step_at_end :
      All (λ x. x.step_order ≤ s.step_order) (admin_steps_of cycle db)
      → (db' : Db) × (complete_step env id cycle step user org dto db ≡ ok db')
        × (find_in_org id org db'
            ≡ some (record w {
              status = available_for_final_users;
              active_admin_cycle_id = none;
              current_assigned_user_id = some c.initiated_by;
            }))
        × (find_cycle cycle id db'
            ≡ some (record c {
              status = CycleStatus.completed;
              current_step_order = none;
              completed_at = some env.now;
            }))
        × (admin_steps_of cycle db'
            ≡ update_where
                (λ x. x.id == s.id)
                (λ x. record x { status = AdminStepStatus.done; completed_at = some env.now })
                (admin_steps_of cycle db))
  complete_step_at_end low =
      complete_step-last env id cycle step user org dto db w c s found status passes_checks
        (next_admin_step-over s.step_order (admin_steps_of cycle db) low)
