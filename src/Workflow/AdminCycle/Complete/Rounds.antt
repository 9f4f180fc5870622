-- ===== src/Workflow/AdminCycle/Complete/Rounds.antt =====
-- A review cycle to its end, one reviewer after the other.
use sgd_backend.Base.{
  ℕ, zero, suc, ◌≡◌, refl, sym, ap, ◌∙◌, inl, inr, some, none, Option-cases, List, All, ==_refl,
  find_if, find_if-none, sort, sort-All, count_above, count_above-update_where, count_above-zero,
  count_above-next, arith,
}
use sgd_backend.Workflow.Enums.{
  admin_cycle_in_progress, available_for_final_users, CycleStatus, AdminStepStatus, is_active,
}
use sgd_backend.Workflow.Entities.{Workflow, AdminCycle, AdminStep}
use sgd_backend.Workflow.Errors.{
  Result, ok, ◌>>=◌, or_fail, not_found, forbidden, workflow_not_found, not_assigned,
  step_not_found,
}
use sgd_backend.Workflow.Store.{Db, Env, find_in_org}
use sgd_backend.Workflow.AdminCycle.{StepInput, by_admin_order, find_cycle, admin_steps_of}
use sgd_backend.Workflow.AdminCycle.Complete.{
  next_admin_step, find_own_step, activate, complete_step,
}
use sgd_backend.Workflow.AdminCycle.Complete.Turns.{complete_step-next, complete_step-last}
use sgd_backend.Workflow.AdminCycle.Complete.Queue.{
  IsQueue, advance, next_admin_step-Memᴰ, next_admin_step-lt, next_admin_step-least,
  IsQueue-advance, IsQueue-active, find_by_id-IsQueue, find_active-IsQueue, All-done,
}

-- `k` calls of `completeStep`, each by the user who is assigned at the time, for the step that is
-- pending at the time.
unfoldable pub complete_in_turn : Env → (id cycle org : ℕ) → StepInput → ℕ → Db → Result Db
complete_in_turn env id cycle org dto zero db = ok db
complete_in_turn env id cycle org dto (suc k) db = do
  w ← or_fail (find_in_org id org db) (not_found workflow_not_found)
  user ← or_fail w.current_assigned_user_id (forbidden not_assigned)
  s ←
      or_fail (find_if (λ x. is_active x.status) (admin_steps_of cycle db))
        (not_found step_not_found)
  later ← complete_step env id cycle s.id user org dto db
  complete_in_turn env id cycle org dto k later

-- How many reviewers come after the step.
abbrev pub reviews_after : AdminStep → List AdminStep → ℕ
reviews_after s steps = count_above by_admin_order s.step_order steps

reviews_after-advance :
    {steps : List AdminStep} {s n : AdminStep} (now : ℕ)
    → IsQueue steps s
    → next_admin_step s.step_order steps ≡ some n
    → reviews_after s steps ≡ suc (reviews_after n (advance now s n steps))
reviews_after-advance {steps} {s} {n} now c e =
    count_above-next by_admin_order s.step_order n steps c.orders
      (next_admin_step-Memᴰ s.step_order steps e) (next_admin_step-lt s.step_order steps e)
      (next_admin_step-least s.step_order steps e)
    ∙ ap suc (
        sym (
          count_above-update_where by_admin_order n.step_order _ _ (λ x. refl) _
          ∙ count_above-update_where by_admin_order n.step_order _ _ (λ x. refl) steps))

reviews_after-none :
    (s : AdminStep) (steps : List AdminStep)
    → next_admin_step s.step_order steps ≡ none
    → reviews_after s steps ≡ 0
unfolding next_admin_step
reviews_after-none s steps e =
    count_above-zero by_admin_order s.step_order steps
      (sort-All by_admin_order _ steps (find_if-none _ (sort by_admin_order steps) e))

module _ (id cycle org : ℕ) where
  -- The workflow waits for the reviewer of the step `s` of the cycle `c`.
  pub record IsReview (db : Db) (w : Workflow) (c : AdminCycle) (s : AdminStep) : Type 0 where
    pub found : find_in_org id org db ≡ some w
    pub status : w.status ≡ admin_cycle_in_progress
    pub assigned : w.current_assigned_user_id ≡ some s.user_id
    pub cycle_found : find_cycle cycle id db ≡ some c
    pub running : c.status ≡ CycleStatus.in_progress
    pub queue : IsQueue (admin_steps_of cycle db) s

  -- The cycle is over, and the workflow is back with the user `initiator`.
  pub record IsReviewed (initiator : ℕ) (db : Db) : Type 0 where
    pub workflow : Workflow
    pub own_cycle : AdminCycle
    pub found : find_in_org id org db ≡ some workflow
    pub status : workflow.status ≡ available_for_final_users
    pub no_cycle : workflow.active_admin_cycle_id ≡ none
    pub assigned : workflow.current_assigned_user_id ≡ some initiator
    pub cycle_found : find_cycle cycle id db ≡ some own_cycle
    pub completed : own_cycle.status ≡ CycleStatus.completed
    pub done : All (λ x. x.status ≡ AdminStepStatus.done) (admin_steps_of cycle db)

module _ (env : Env) (id cycle org : ℕ) (dto : StepInput) where
  owns :
      (db : Db) (w : Workflow) (c : AdminCycle) (s : AdminStep)
      → IsReview id cycle org db w c s
      → find_own_step id cycle s.id s.user_id db ≡ ok (c, s)
  unfolding find_own_step
  owns db w c s r =
      rw
        (
          r.cycle_found,
          r.running,
          find_by_id-IsQueue r.queue,
          ==_refl s.user_id,
          IsQueue-active r.queue,
        )
        refl

  review_round :
      (db later : Db) (w : Workflow) (c : AdminCycle) (s : AdminStep) (k : ℕ)
      → IsReview id cycle org db w c s
      → complete_step env id cycle s.id s.user_id org dto db ≡ ok later
      → complete_in_turn env id cycle org dto (suc k) db
        ≡ complete_in_turn env id cycle org dto k later
  unfolding complete_in_turn
  review_round db later w c s k r e = rw (r.found, r.assigned, find_active-IsQueue r.queue, e) refl

  finish_review :
      (db : Db) (w : Workflow) (c : AdminCycle) (s : AdminStep)
      → IsReview id cycle org db w c s
      → next_admin_step s.step_order (admin_steps_of cycle db) ≡ none
      → (db' : Db) × (complete_in_turn env id cycle org dto 1 db ≡ ok db')
        × IsReviewed id cycle org c.initiated_by db'
  finish_review db w c s r e =
      let (db', accepted, seen, cycle_seen, steps) =
        complete_step-last env id cycle s.id s.user_id org dto db w c s r.found r.status
          (owns db w c s r) e in
      (
        db',
        review_round db db' w c s 0 r accepted ∙ unfold complete_in_turn in refl,
        record {
          workflow = _;
          own_cycle = _;
          found = seen;
          status = refl;
          no_cycle = refl;
          assigned = refl;
          cycle_found = cycle_seen;
          completed = refl;
          done = rw steps (All-done env.now r.queue e);
        },
      )

  -- From the pending step of a cycle in progress on, as many completions as there are steps left,
  -- each of the pending step by the user assigned at the time, are all accepted and end the cycle:
  -- every step and the cycle are completed, and the workflow is available to its final users,
  -- assigned to the one who began the cycle, and without an active cycle.
  pub complete_in_turn-IsReviewed :
      (k : ℕ) (db : Db) (w : Workflow) (c : AdminCycle) (s : AdminStep)
      → IsReview id cycle org db w c s
      → reviews_after s (admin_steps_of cycle db) ≡ k
      → (db' : Db) × (complete_in_turn env id cycle org dto (suc k) db ≡ ok db')
        × IsReviewed id cycle org c.initiated_by db'
  complete_in_turn-IsReviewed zero db w c s r left =
      elim (Option-cases (next_admin_step s.step_order (admin_steps_of cycle db))) [
        | inl e ↦ finish_review db w c s r e
        | inr (n, e) ↦ absurd (omega (arith, reviews_after-advance env.now r.queue e))
      ]
  complete_in_turn-IsReviewed (suc k) db w c s r left =
      elim (Option-cases (next_admin_step s.step_order (admin_steps_of cycle db))) [
        | inl e ↦ absurd (omega (arith, reviews_after-none s (admin_steps_of cycle db) e))
        | inr (n, e) ↦
            let (later, accepted, seen, cycle_seen, steps) =
              complete_step-next env id cycle s.id s.user_id org dto db w c s r.found r.status
                (owns db w c s r) n e in
            let (db', end, over) =
              complete_in_turn-IsReviewed k later _ _ (activate n)
                (record {
                  found = seen;
                  status = r.status;
                  assigned = refl;
                  cycle_found = cycle_seen;
                  running = r.running;
                  queue = rw steps (IsQueue-advance env.now r.queue e);
                })
                (rw steps (omega (arith, reviews_after-advance env.now r.queue e))) in
            (db', review_round db later w c s (suc k) r accepted ∙ end, over)
      ]
