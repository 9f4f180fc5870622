-- ===== src/Org/Store.antt =====
-- The tables of services/org-service/src/org-structure. A row that is deleted stays, with `deleted`
-- for its `deletedAt`; queries do not see it unless they ask for it. Names are numbers, compared for
-- equality only. The audit messages and the descriptions are left out.
use sgd_backend.Base.{if◌then◌else◌, Option, some, none, ℕ, Bool, ◌&&◌, Option, List, ◌==◌}
use sgd_backend.Base.Actions.{
  Reply, answer, missing, failed, Action, give, throw_it, require, ◌>>=◌,
}

pub data StructureType : Type 0 where
  departamento area cargo : StructureType

pub record Departamento : Type 0 where
  pub id : ℕ
  pub org_id : ℕ
  pub name : ℕ
  pub deleted : Bool

pub record Area : Type 0 where
  pub id : ℕ
  pub org_id : ℕ
  pub departamento_id : ℕ
  pub name : ℕ
  pub deleted : Bool

pub record Cargo : Type 0 where
  pub id : ℕ
  pub org_id : ℕ
  pub departamento_id : ℕ
  pub area_id : Option ℕ
  pub name : ℕ
  pub deleted : Bool

pub record Lease : Type 0 where
  pub structure_type : StructureType
  pub structure_id : ℕ
  pub expires_at : ℕ

pub record Structure : Type 0 where
  pub departamentos : List Departamento
  pub areas : List Area
  pub cargos : List Cargo
  pub leases : List Lease

pub data Reason : Type 0 where
  not_found already_exists has_dependencies has_external_references has_pending_operation : Reason
  not_deleted service_failure : Reason

-- The clock of the database, the id that it gives, and the answers of document-service and
-- user-service (`countOrgStructureReferences`).
pub record Env : Type 0 where
  pub now : ℕ
  pub new_id : ℕ
  pub typologies_count : StructureType → ℕ → Reply ℕ
  pub users_count : StructureType → ℕ → Reply ℕ

abbrev pub Method {ℓ} : Type ℓ → Type ℓ
Method Answer = Action Structure Reason Answer

unfoldable pub reply_or_throw : Reply ℕ → Method ℕ
reply_or_throw (answer n) = give n
reply_or_throw missing = throw_it service_failure
reply_or_throw failed = throw_it service_failure

-- `ExternalReferencesGuard.assertNone`: a service that does not answer stops the deletion too.
unfoldable pub assert_none : Env → StructureType → ℕ → Method (Unit {0})
assert_none env t id = do
  typologies ← reply_or_throw (env.typologies_count t id)
  users ← reply_or_throw (env.users_count t id)
  require (typologies == 0 && users == 0) has_external_references

-- `dto.name && dto.name !== row.name`, and then the check of the new name; the DTOs let no empty name
-- through, so a name that is given is not the empty one.
abbrev pub check_rename : (ℕ → Method (Unit {0})) → Option ℕ → (old : ℕ) → Method (Unit {0})
check_rename free none old = give tt
check_rename free (some new) old = if new == old then give tt else free new
