-- ===== src/Workflow/Lifecycle.antt =====
-- All operations of the approval and of the review cycle as calls on one database, and histories of
-- such calls. A call runs to its end before the next one begins.
pub mod Reads
pub mod Moves
pub mod AdminMoves
pub mod Histories
use sgd_backend.Base.{ℕ, String, Option, List, [], ◌∷◌}
use sgd_backend.Workflow.Errors.{Result, ok, err}
use sgd_backend.Workflow.Store.{Db, Env}
use sgd_backend.Workflow.Approval.{start_approval}
use sgd_backend.Workflow.Approval.Approve.{ApproveDto, approve}
use sgd_backend.Workflow.Approval.Reject.{ResubmitDto, reject, resubmit}
use sgd_backend.Workflow.AdminCycle.{StepInput}
use sgd_backend.Workflow.AdminCycle.Create.{CreateCycleDto, create_cycle}
use sgd_backend.Workflow.AdminCycle.Complete.{complete_step}
use sgd_backend.Workflow.AdminCycle.Forward.{forward_step}
use sgd_backend.Workflow.AdminCycle.Finish.{
  NoteDto, skip_review_cycle, add_note, close_workflow, cancel_workflow,
}

pub data Call : Type 0 where
  starts : (id user : ℕ) → Call
  approves : (id user : ℕ) → ApproveDto → Call
  rejects : (id user : ℕ) → String → Call
  resubmits : (id user : ℕ) → ResubmitDto → Call
  creates_cycle : (id user org : ℕ) → CreateCycleDto → Call
  completes : (id cycle step user org : ℕ) → StepInput → Call
  forwards : (id cycle step user org : ℕ) → StepInput → (reviewer : ℕ) → Call
  skips : (id user org : ℕ) → Call
  adds_note : (id user org : ℕ) → NoteDto → Call
  closes : (id user org : ℕ) → Option String → Call
  cancels : (id user org : ℕ) → String → Call

unfoldable pub run : Env → Call → Db → Result Db
run env (starts id user) db = start_approval id user db
run env (approves id user dto) db = approve env id user dto db
run env (rejects id user observations) db = reject id user observations db
run env (resubmits id user dto) db = resubmit id user dto db
run env (creates_cycle id user org dto) db = create_cycle env id user org dto db
run env (completes id cycle step user org dto) db = complete_step env id cycle step user org dto db
run env (forwards id cycle step user org dto reviewer) db =
    forward_step env id cycle step user org dto reviewer db
run env (skips id user org) db = skip_review_cycle id user org db
run env (adds_note id user org dto) db = add_note env id user org dto db
run env (closes id user org notes) db = close_workflow env id user org notes db
run env (cancels id user org reason) db = cancel_workflow env id user org reason db

-- A call that fails is rolled back.
abbrev pub after : Db → Result Db → Db
after db (ok db') = db'
after db (err e) = db

-- One call after the other, each in the circumstances of its time.
unfoldable pub run_all : List (Env × Call) → Db → Db
run_all [] db = db
run_all ((env, call) ∷ calls) db = run_all calls (after db (run env call db))
