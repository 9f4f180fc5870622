-- ===== src/Workflow/Tests/Remove.antt =====
-- The creator removes a draft, and a stranger does not.
use sgd_backend.Base.{ℕ, ◌≡◌, ◌≢◌, refl, none, some, false}
use sgd_backend.Workflow.Errors.{ok}
use sgd_backend.Workflow.Store.{Db, Env, find_workflow, find_in_org}
use sgd_backend.Workflow.Lifecycle.{Call, run}
use sgd_backend.Workflow.Removal.{remove}
use sgd_backend.Workflow.Removal.Laws.{workflow_of, remove-hides, remove-refuses}
use sgd_backend.Workflow.Tests.{env, draft_row, draft_db}
use sgd_backend.Base.{find_if}

draft_stored : find_workflow 1 draft_db ≡ some draft_row
unfolding find_workflow find_if
draft_stored = refl

remove-hides_example :
    (db' : Db) × (remove env 1 7 false draft_db ≡ ok db')
    × (find_workflow 1 db' ≡ none)
    × ((org : ℕ) → find_in_org 1 org db' ≡ none)
    × ((later : Env) (call : Call) (db'' : Db)
        → workflow_of call ≡ 1
        → run later call db' ≢ ok db'')
remove-hides_example = remove-hides env 1 7 false draft_db draft_row draft_stored refl

remove-refuses_example : remove env 1 21 false draft_db ≢ ok draft_db
remove-refuses_example = remove-refuses env 1 21 false draft_db draft_db draft_row draft_stored refl
