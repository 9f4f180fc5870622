-- ===== src/Workflow/Lifecycle/Reads.antt =====
-- What a successful operation has read: the row of the workflow, in a status that allows it.
use sgd_backend.Base.{ℕ, ◌≡◌, some, Memᴰ, find_if-Memᴰ, arith}
use sgd_backend.Workflow.Enums.{pending_approval, rejected, pending_review_cycle}
use sgd_backend.Workflow.Entities.{Workflow, ApprovalStep}
use sgd_backend.Workflow.Errors.{ok}
use sgd_backend.Workflow.Store.{Db, Env, find_workflow, find_in_org}
use sgd_backend.Workflow.StateMachine.{assert_valid_transition}
use sgd_backend.Workflow.Approval.{read_start}
use sgd_backend.Workflow.Approval.Approve.{Reading, read_approve}
use sgd_backend.Workflow.Approval.Reject.{RejectReading, read_reject, read_resubmit}

pub find_workflow-Memᴰ :
    (id : ℕ) (db : Db) {w : Workflow} → find_workflow id db ≡ some w → Memᴰ w db.workflows
unfolding find_workflow
find_workflow-Memᴰ id db e = find_if-Memᴰ _ db.workflows e

pub find_in_org-Memᴰ :
    (id org : ℕ) (db : Db) {w : Workflow} → find_in_org id org db ≡ some w → Memᴰ w db.workflows
unfolding find_in_org
find_in_org-Memᴰ id org db e = find_if-Memᴰ _ db.workflows e

pub read_approve-workflow :
    (env : Env) (id user : ℕ) (db : Db) (r : Reading)
    → read_approve env id user db ≡ ok r
    → (find_workflow id db ≡ some r.workflow)
      × (assert_valid_transition r.workflow.status pending_review_cycle ≡ ok tt)
unfolding read_approve
read_approve-workflow env id user db r h = (ground arith, ground arith)

pub read_reject-workflow :
    (id user : ℕ) (db : Db) (r : RejectReading)
    → read_reject id user db ≡ ok r
    → (find_workflow id db ≡ some r.workflow)
      × (assert_valid_transition r.workflow.status rejected ≡ ok tt)
unfolding read_reject
read_reject-workflow id user db r h = (ground arith, ground arith)

pub read_start-workflow :
    (id user : ℕ) (db : Db) (w : Workflow) (s : ApprovalStep)
    → read_start id user db ≡ ok (w, s)
    → (find_workflow id db ≡ some w) × (assert_valid_transition w.status pending_approval ≡ ok tt)
unfolding read_start
read_start-workflow id user db w s h = (ground arith, ground arith)

pub read_resubmit-workflow :
    (id user : ℕ) (db : Db) (w : Workflow) (s : ApprovalStep)
    → read_resubmit id user db ≡ ok (w, s)
    → (find_workflow id db ≡ some w) × (assert_valid_transition w.status pending_approval ≡ ok tt)
unfolding read_resubmit
read_resubmit-workflow id user db w s h = (ground arith, ground arith)
