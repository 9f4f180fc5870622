-- ===== src/Workflow/AdminCycle.antt =====
-- services/workflow-service/src/workflows/workflow-admin-cycle.service.ts: the parts that its
-- operations share. Each operation locks the row of the workflow and does all its reads and writes
-- in one transaction, so it is one step here. An error leaves the database as it was.
pub mod Create
pub mod Complete
pub mod Forward
pub mod Finish
pub mod Reads
use sgd_backend.Base.{
  ℕ, suc, String, Bool, true, false, ◌&&◌, Option, none, some, is_some, List, [], ◌∷◌, ◌++◌, map,
  is_empty, get_or, includes, ◌==◌, find_if, update_where, select, given, trimmed,
}
use sgd_backend.Workflow.Entities.{FileInfo, Workflow, AdminCycle, AdminStep, AdminAttachment, Note}
use sgd_backend.Workflow.Store.{Db, Env}

-- `findOne(WorkflowAdminCycle, { where: { id, workflowId } })`
abbrev pub is_cycle : ℕ → AdminCycle → Bool
is_cycle id c = c.id == id

unfoldable pub find_cycle : ℕ → ℕ → Db → Option AdminCycle
find_cycle id workflow db = find_if (λ c. is_cycle id c && c.workflow_id == workflow) db.cycles

-- `relations: ['steps']`
abbrev pub in_cycle : ℕ → AdminStep → Bool
in_cycle id s = s.cycle_id == id

abbrev pub is_admin_step : ℕ → AdminStep → Bool
is_admin_step id s = s.id == id

unfoldable pub admin_steps_of : ℕ → Db → List AdminStep
admin_steps_of id db = select (in_cycle id) db.admin_steps

abbrev pub by_admin_order : AdminStep → ℕ
by_admin_order s = s.step_order

-- `manager.update(WorkflowAdminCycle, id, …)` and `manager.update(WorkflowAdminStep, id, …)`
abbrev pub update_cycle : ℕ → (AdminCycle → AdminCycle) → Db → Db
update_cycle id f db = record db { cycles = update_where (is_cycle id) f db.cycles }

abbrev pub update_admin_step : ℕ → (AdminStep → AdminStep) → Db → Db
update_admin_step id f db = record db {
  admin_steps = update_where (is_admin_step id) f db.admin_steps;
}

-- `(workflow.finalUserIds ?? []).includes(userId)`
abbrev pub is_final_user : ℕ → Workflow → Bool
is_final_user user w = includes (get_or w.final_user_ids []) user

-- `manager.save(WorkflowNote, …)`, with the id that the database gives.
abbrev pub save_note : Note → Db → Db
save_note n db = record db { notes = db.notes ++ n ∷ []; saved = suc db.saved }

-- What a reviewer may leave with a step: `CompleteAdminStepDto` and part of `ForwardAdminStepDto`.
pub record StepInput : Type 0 where
  pub notes : Option String
  pub attachments : Option (List FileInfo)

abbrev pub has_notes : StepInput → Bool
has_notes dto = is_some (given dto.notes)

abbrev pub has_attachments : StepInput → Bool
has_attachments dto = elim (get_or dto.attachments []) [ [] ↦ false | f ∷ fs ↦ true ]

-- `if (dto.notes?.trim()) save the note`
unfoldable pub leave_note : Env → ℕ → ℕ → ℕ → ℕ → Option String → Db → Db
leave_note env workflow cycle step user none db = db
leave_note env workflow cycle step user (some content) db =
    save_note
      (record {
        id = env.uuid db.saved;
        workflow_id = workflow;
        cycle_id = some cycle;
        admin_step_id = some step;
        created_by = user;
        content = content;
      })
      db

-- `if (dto.attachments?.length) save the attachments`; of an empty list nothing is saved.
unfoldable pub leave_attachments : ℕ → ℕ → ℕ → ℕ → List FileInfo → Db → Db
leave_attachments workflow cycle step user files db = record db {
  admin_attachments = db.admin_attachments ++ map row files;
}
  where
    row : FileInfo → AdminAttachment
    row f = record {
      workflow_id = workflow;
      cycle_id = cycle;
      step_id = step;
      uploaded_by = user;
      document_id = f.storage_key;
      file = f;
    }

-- The two writes together.
unfoldable pub leave_input : Env → ℕ → ℕ → ℕ → ℕ → StepInput → Db → Db
unfolding leave_note leave_attachments
leave_input env workflow cycle step user dto db =
    leave_attachments workflow cycle step user (get_or dto.attachments [])
      (leave_note env workflow cycle step user (trimmed dto.notes) db)
