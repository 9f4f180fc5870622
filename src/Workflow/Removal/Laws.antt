-- ===== src/Workflow/Removal/Laws.antt =====
-- Who may remove a workflow, and that a removed one is gone.
use sgd_backend.Base.{
  ℕ, ◌≡◌, ◌≢◌, refl, inl, inr, Bool, true, false, ◌&&◌, ◌||◌, Bool-cases, none, some, List, [], ◌∷◌,
  find_if, update_where, ◌==◌, arith,
}
use sgd_backend.Workflow.Entities.{Workflow}
use sgd_backend.Workflow.Errors.{ok}
use sgd_backend.Workflow.Store.{Db, Env, has_id, is_live, find_workflow, find_in_org}
use sgd_backend.Workflow.Approval.{read_start, start_approval}
use sgd_backend.Workflow.Approval.Approve.{read_approve, approve}
use sgd_backend.Workflow.Approval.Reject.{read_reject, reject, read_resubmit, resubmit}
use sgd_backend.Workflow.AdminCycle.Create.{create_cycle}
use sgd_backend.Workflow.AdminCycle.Complete.{complete_step}
use sgd_backend.Workflow.AdminCycle.Forward.{forward_step}
use sgd_backend.Workflow.AdminCycle.Finish.{
  own_workflow, skip_review_cycle, add_note, close_workflow, cancel_workflow,
}
use sgd_backend.Workflow.Lifecycle.{
  Call, starts, approves, rejects, resubmits, creates_cycle, completes, forwards, skips, adds_note,
  closes, cancels, run,
}
use sgd_backend.Workflow.Removal.{is_deletable, deleted_on, commit_remove, remove}

none_live :
    (id now : ℕ) (ws : List Workflow)
    → find_if (is_live id) (update_where (has_id id) (deleted_on now) ws) ≡ none
unfolding find_if update_where
none_live id now [] = refl
none_live id now (w ∷ ws) = elim (Bool-cases (has_id id w)) [
  | inl t ↦ rw (t, t) (none_live id now ws)
  | inr f ↦ rw (f, f) (none_live id now ws)
]

none_in_org :
    (id org : ℕ) (ws : List Workflow)
    → find_if (is_live id) ws ≡ none
    → find_if (λ w. is_live id w && w.org_id == org) ws ≡ none
unfolding find_if
none_in_org id org [] h = refl
none_in_org id org (w ∷ ws) h = elim (Bool-cases (is_live id w)) [
  | inl t ↦ (let found : some w ≡ none = rw t at h in cc)
  | inr f ↦ rw f (none_in_org id org ws (rw f at h))
]

-- The workflow that a call is about.
abbrev pub workflow_of : Call → ℕ
workflow_of (starts id user) = id
workflow_of (approves id user dto) = id
workflow_of (rejects id user observations) = id
workflow_of (resubmits id user dto) = id
workflow_of (creates_cycle id user org dto) = id
workflow_of (completes id cycle step user org dto) = id
workflow_of (forwards id cycle step user org dto reviewer) = id
workflow_of (skips id user org) = id
workflow_of (adds_note id user org dto) = id
workflow_of (closes id user org notes) = id
workflow_of (cancels id user org reason) = id

module _ (db : Db) where
  -- No row for this number, in no organisation.
  IsGone : ℕ → Type 0
  IsGone id = (find_workflow id db ≡ none) × ((org : ℕ) → find_in_org id org db ≡ none)

  run-IsGone :
      (env : Env) (call : Call) (db' : Db) → IsGone (workflow_of call) → run env call db ≢ ok db'
  unfolding run IsGone start_approval read_start approve read_approve reject read_reject resubmit
      read_resubmit create_cycle complete_step forward_step own_workflow skip_review_cycle add_note
      close_workflow cancel_workflow
  run-IsGone env (starts id user) db' gone h = let at = gone.0 in ground arith
  run-IsGone env (approves id user dto) db' gone h = let at = gone.0 in ground arith
  run-IsGone env (rejects id user observations) db' gone h = let at = gone.0 in ground arith
  run-IsGone env (resubmits id user dto) db' gone h = let at = gone.0 in ground arith
  run-IsGone env (creates_cycle id user org dto) db' gone h = let at = gone.1 org in ground arith
  run-IsGone env (completes id cycle step user org dto) db' gone h =
      let at = gone.1 org in ground arith
  run-IsGone env (forwards id cycle step user org dto reviewer) db' gone h =
      let at = gone.1 org in ground arith
  run-IsGone env (skips id user org) db' gone h = let at = gone.1 org in ground arith
  run-IsGone env (adds_note id user org dto) db' gone h = let at = gone.1 org in ground arith
  run-IsGone env (closes id user org notes) db' gone h = let at = gone.1 org in ground arith
  run-IsGone env (cancels id user org reason) db' gone h = let at = gone.1 org in ground arith

-- Who may remove the workflow.
abbrev pub may_remove : (user : ℕ) (is_super_admin : Bool) → Workflow → Bool
may_remove user is_super_admin w = is_super_admin || (is_deletable w.status && w.created_by == user)

remove_with :
    (env : Env) (id user : ℕ) (is_super_admin : Bool) (db : Db) (w : Workflow)
    → find_workflow id db ≡ some w
    → may_remove user is_super_admin w ≡ true
    → (db' : Db) × (remove env id user is_super_admin db ≡ ok db')
      × (db'.workflows ≡ update_where (has_id id) (deleted_on env.now) db.workflows)
unfolding remove
remove_with env id user true db w found allowed =
    (commit_remove env id user w db, ground (arith, found), refl)
remove_with env id user false db w found allowed =
    (commit_remove env id user w db, ground (arith, found, allowed), refl)

-- A stored workflow is removed for a super administrator, and for its creator while it is DRAFT or
-- CANCELLED. After that neither the lookup by its number nor that within an organisation, whichever
-- it is, finds it, and no call about it, of the approval or of the review cycle, succeeds.
pub remove-hides :
    (env : Env) (id user : ℕ) (is_super_admin : Bool) (db : Db) (w : Workflow)
    → find_workflow id db ≡ some w
    → may_remove user is_super_admin w ≡ true
    → (db' : Db) × (remove env id user is_super_admin db ≡ ok db')
      × (find_workflow id db' ≡ none)
      × ((org : ℕ) → find_in_org id org db' ≡ none)
      × ((later : Env) (call : Call) (db'' : Db)
          → workflow_of call ≡ id
          → run later call db' ≢ ok db'')
unfolding IsGone
remove-hides env id user is_super_admin db w found allowed =
    let (db', done, rows) = remove_with env id user is_super_admin db w found allowed in
    let gone : find_workflow id db' ≡ none =
      unfold find_workflow in rw rows (none_live id env.now db.workflows) in
    let gone_in_org : (org : ℕ) → find_in_org id org db' ≡ none =
      unfold find_in_org find_workflow in λ org. none_in_org id org db'.workflows gone in
    (
      db',
      done,
      gone,
      gone_in_org,
      λ later call db'' same. run-IsGone db' later call db'' (rw same (gone, gone_in_org)),
    )

-- Nobody else removes a stored workflow.
pub remove-refuses :
    (env : Env) (id user : ℕ) (is_super_admin : Bool) (db db' : Db) (w : Workflow)
    → find_workflow id db ≡ some w
    → may_remove user is_super_admin w ≡ false
    → remove env id user is_super_admin db ≢ ok db'
unfolding remove
remove-refuses env id user true db db' w found refused h = cc
remove-refuses env id user false db db' w found refused h = ground (arith, found, refused)
