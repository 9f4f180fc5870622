-- ===== src/Workflow/Lifecycle/Moves.antt =====
-- Each successful call moves at most one workflow, and along an edge of the state machine.
use sgd_backend.Base.{
  ℕ, ◌≡◌, refl, sym, subst, ◌∙◌, ◌⊎◌, inl, inr, Bool, true, false, some, none, Option-cases, String,
  List, [], ◌∷◌, Memᴰ, update_where, if◌then◌else◌, arith,
}
use sgd_backend.Workflow.Enums.{
  WorkflowStatus, pending_approval, available_for_final_users, pending_review_cycle,
}
use sgd_backend.Workflow.Entities.{Workflow, ApprovalStep}
use sgd_backend.Workflow.Errors.{ok, ◌>>=◌}
use sgd_backend.Workflow.Store.{Db, Env, has_id}
use sgd_backend.Workflow.StateMachine.Graph.{◌⟶◌, approve_directly, assert_valid_transition_sound}
use sgd_backend.Workflow.Approval.{read_start, commit_start, start_approval, assigned_to}
use sgd_backend.Workflow.Approval.Approve.{
  ApproveDto, Reading, read_approve, commit_approve, commit_last, commit_more, final_users, approve,
}
use sgd_backend.Workflow.Approval.Reject.{
  ResubmitDto, read_reject, commit_reject, reject, read_resubmit, commit_resubmit, resubmit,
  sent_again,
}
use sgd_backend.Workflow.Errors.Laws.{>>=-eq-ok}
use sgd_backend.Workflow.Lifecycle.Reads.{
  find_workflow-Memᴰ, read_approve-workflow, read_reject-workflow, read_start-workflow,
  read_resubmit-workflow,
}

abbrev pub by_workflow_id : Workflow → ℕ
by_workflow_id w = w.id

-- The same status, or an edge.
abbrev pub StaysOrMoves : WorkflowStatus → WorkflowStatus → Type 0
StaysOrMoves s t = (t ≡ s) ⊎ (s ⟶ t)

-- The rows of the workflows after a call: the same, or one of them updated.
pub data Moves (db db' : Db) : Type 0 where
  kept : db'.workflows ≡ db.workflows → Moves db db'
  moved :
      (w : Workflow) (f : Workflow → Workflow)
      → Memᴰ w db.workflows
      → ((x : Workflow) → (f x).id ≡ x.id)
      → StaysOrMoves w.status (f w).status
      → db'.workflows ≡ update_where (has_id w.id) f db.workflows
      → Moves db db'

pub of_ok : {a b : Db} → ok a ≡ ok b → a ≡ b
of_ok e = cc

pub start-Moves : (id user : ℕ) (db db' : Db) → start_approval id user db ≡ ok db' → Moves db db'
unfolding start_approval
start-Moves id user db db' h =
    let ((w, s), read, done) = >>=-eq-ok (read_start id user db) _ h in
    let (found, edge) = read_start-workflow id user db w s read in
    subst (Moves db) (of_ok done) (
      unfold commit_start in
      moved w _ (find_workflow-Memᴰ id db found) (λ x. refl)
        (inr (assert_valid_transition_sound _ _ edge)) refl)

pub reject-Moves :
    (id user : ℕ) (text : String) (db db' : Db) → reject id user text db ≡ ok db' → Moves db db'
unfolding reject
reject-Moves id user text db db' h =
    let (r, read, done) = >>=-eq-ok (read_reject id user db) _ h in
    let (found, edge) = read_reject-workflow id user db r read in
    subst (Moves db) (of_ok done) (
      unfold commit_reject in
      moved r.workflow _ (find_workflow-Memᴰ id db found) (λ x. refl)
        (inr (assert_valid_transition_sound _ _ edge)) refl)

sent_again-keeps :
    (s : ApprovalStep) (dto : ResubmitDto) (w : Workflow)
    → ((sent_again s dto w).id ≡ w.id) × ((sent_again s dto w).status ≡ pending_approval)
sent_again-keeps s dto w = (ground arith, ground arith)

pub resubmit-Moves :
    (id user : ℕ) (dto : ResubmitDto) (db db' : Db)
    → resubmit id user dto db ≡ ok db'
    → Moves db db'
unfolding resubmit
resubmit-Moves id user dto db db' h =
    let ((w, s), read, done) = >>=-eq-ok (read_resubmit id user db) _ h in
    let (found, edge) = read_resubmit-workflow id user db w s read in
    subst (Moves db) (of_ok done) (
      unfold commit_resubmit in
      moved w (sent_again s dto) (find_workflow-Memᴰ id db found)
        (λ x. (sent_again-keeps s dto x).0)
        (inr (rw (sent_again-keeps s dto w).1 (assert_valid_transition_sound _ _ edge))) refl)

-- Only from PENDING_APPROVAL does an edge lead to the review cycle.
finishing :
    (s : WorkflowStatus) (review : Bool)
    → s ⟶ pending_review_cycle
    → s ⟶ (if review then pending_review_cycle else available_for_final_users)
finishing s true e = e
finishing s false ◌⟶◌.approve = approve_directly

last-Moves :
    (env : Env) (user : ℕ) (dto : ApproveDto) (r : Reading) (users : List ℕ) (db : Db)
    → Memᴰ r.workflow db.workflows
    → r.workflow.status ⟶ pending_review_cycle
    → Moves db (commit_last env user dto r users db)
unfolding commit_last
last-Moves env user dto r [] db m e =
    moved r.workflow _ m (λ x. refl) (inr (finishing _ r.review_cycle_enabled e)) refl
last-Moves env user dto r (u ∷ us) db m e =
    moved r.workflow _ m (λ x. refl) (inr (finishing _ r.review_cycle_enabled e)) refl

commit_approve-none :
    (env : Env) (user : ℕ) (dto : ApproveDto) (r : Reading) (db : Db)
    → r.next ≡ none
    → commit_approve env user dto r db
      ≡ (final_users env r.workflow >>= λ us. ok (commit_last env user dto r us db))
unfolding commit_approve
commit_approve-none env user dto r db e = rw e refl

commit_approve-some :
    (env : Env) (user : ℕ) (dto : ApproveDto) (r : Reading) (n : ApprovalStep) (db : Db)
    → r.next ≡ some n
    → commit_approve env user dto r db ≡ ok (commit_more env user dto r n db)
unfolding commit_approve
commit_approve-some env user dto r n db e = rw e refl

more-Moves :
    (env : Env) (user : ℕ) (dto : ApproveDto) (r : Reading) (n : ApprovalStep) (db : Db)
    → Memᴰ r.workflow db.workflows
    → Moves db (commit_more env user dto r n db)
unfolding commit_more
more-Moves env user dto r n db m = moved r.workflow (assigned_to n) m (λ x. refl) (inl refl) refl

commit_approve-Moves :
    (env : Env) (user : ℕ) (dto : ApproveDto) (r : Reading) (db db' : Db)
    → Memᴰ r.workflow db.workflows
    → r.workflow.status ⟶ pending_review_cycle
    → commit_approve env user dto r db ≡ ok db'
    → Moves db db'
commit_approve-Moves env user dto r db db' m e h = elim (Option-cases r.next) [
  | inl last ↦
      let (users, chosen, done) =
        >>=-eq-ok (final_users env r.workflow) (λ us. ok (commit_last env user dto r us db))
          (sym (commit_approve-none env user dto r db last) ∙ h) in
      subst (Moves db) (of_ok done) (last-Moves env user dto r users db m e)
  | inr (n, more) ↦
      subst (Moves db) (of_ok (sym (commit_approve-some env user dto r n db more) ∙ h))
        (more-Moves env user dto r n db m)
]

pub approve-Moves :
    (env : Env) (id user : ℕ) (dto : ApproveDto) (db db' : Db)
    → approve env id user dto db ≡ ok db'
    → Moves db db'
unfolding approve
approve-Moves env id user dto db db' h =
    let (r, read, done) = >>=-eq-ok (read_approve env id user db) _ h in
    let (found, edge) = read_approve-workflow env id user db r read in
    commit_approve-Moves env user dto r db db' (find_workflow-Memᴰ id db found)
      (assert_valid_transition_sound _ _ edge) done
