-- ===== src/Workflow/Removal.antt =====
-- `remove` of services/workflow-service/src/workflows/workflows.service.ts
pub mod Laws
use sgd_backend.Base.{ℕ, Bool, true, false, ◌||◌, Option, none, some, ◌==◌}
use sgd_backend.Workflow.Enums.{WorkflowStatus, draft, cancelled, same_status}
use sgd_backend.Workflow.Entities.{Workflow}
use sgd_backend.Workflow.Errors.{
  Result, ok, ◌>>=◌, ◌>>◌, guard, or_fail, not_found, forbidden, conflict, workflow_not_found,
  cannot_delete, not_the_creator,
}
use sgd_backend.Workflow.Store.{Db, Env, Message, find_workflow, update_workflow, emit}

-- `[DRAFT, CANCELLED].includes(status)`
abbrev pub is_deletable : WorkflowStatus → Bool
is_deletable status = same_status draft status || same_status cancelled status

-- `softDelete(id)`
abbrev pub deleted_on : ℕ → Workflow → Workflow
deleted_on now w = record w { deleted_at = some now }

abbrev pub commit_remove : Env → (id user : ℕ) → Workflow → Db → Db
commit_remove env id user w db =
    emit (Message.cancelled id w.org_id user none none) (update_workflow id (deleted_on env.now) db)

unfoldable pub remove : Env → (id user : ℕ) → (is_super_admin : Bool) → Db → Result Db
remove env id user is_super_admin db = do
  w ← or_fail (find_workflow id db) (not_found workflow_not_found)
  guard (is_deletable w.status || is_super_admin) (conflict cannot_delete)
  guard (w.created_by == user || is_super_admin) (forbidden not_the_creator)
  ok (commit_remove env id user w db)
