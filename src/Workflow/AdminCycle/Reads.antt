-- ===== src/Workflow/AdminCycle/Reads.antt =====
-- What the input of a reviewer leaves alone, and which cycle a step was found in.
use sgd_backend.Base.{ℕ, ◌≡◌, refl, String, some, none, Option, find_if-passes, trimmed, arith}
use sgd_backend.Workflow.Entities.{AdminCycle, AdminStep}
use sgd_backend.Workflow.Errors.{ok}
use sgd_backend.Workflow.Store.{Db, Env}
use sgd_backend.Workflow.AdminCycle.{
  StepInput, leave_note, leave_attachments, leave_input, find_cycle,
}
use sgd_backend.Workflow.AdminCycle.Complete.{find_own_step}

-- The input that a reviewer leaves touches none of the three tables.
leave_note-keeps :
    (env : Env) (workflow cycle step user : ℕ) (text : Option String) (db : Db)
    → ((leave_note env workflow cycle step user text db).workflows ≡ db.workflows)
      × ((leave_note env workflow cycle step user text db).cycles ≡ db.cycles)
      × ((leave_note env workflow cycle step user text db).admin_steps ≡ db.admin_steps)
unfolding leave_note
leave_note-keeps env workflow cycle step user none db = (refl, refl, refl)
leave_note-keeps env workflow cycle step user (some t) db = (refl, refl, refl)

pub leave_input-keeps :
    (env : Env) (workflow cycle step user : ℕ) (dto : StepInput) (db : Db)
    → ((leave_input env workflow cycle step user dto db).workflows ≡ db.workflows)
      × ((leave_input env workflow cycle step user dto db).cycles ≡ db.cycles)
      × ((leave_input env workflow cycle step user dto db).admin_steps ≡ db.admin_steps)
unfolding leave_input leave_attachments
leave_input-keeps env workflow cycle step user dto db =
    leave_note-keeps env workflow cycle step user (trimmed dto.notes) db

pub find_own_step-cycle :
    (id cycle step user : ℕ) (db : Db) (c : AdminCycle) (s : AdminStep)
    → find_own_step id cycle step user db ≡ ok (c, s)
    → find_cycle cycle id db ≡ some c
unfolding find_own_step
find_own_step-cycle id cycle step user db c s h = ground arith

pub find_cycle-id :
    (cycle id : ℕ) (db : Db) {c : AdminCycle} → find_cycle cycle id db ≡ some c → c.id ≡ cycle
unfolding find_cycle
find_cycle-id cycle id db {c} e = let passes = find_if-passes _ db.cycles e in ground arith
