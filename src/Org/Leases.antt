-- ===== src/Org/Leases.antt =====
-- `StructureLeasesService` of services/org-service/src/org-structure/structure-leases.service.ts. The
-- sweep of expired rows now and then is left out: no other query sees these rows.
pub mod Kept
pub mod Blocks
use sgd_backend.Base.{ℕ, ◌+◌, Bool, true, false, ◌&&◌, List, [], ◌∷◌, ◌==◌, ltb, length, select}
use sgd_backend.Org.Store.{StructureType, departamento, area, cargo, Lease, Structure, Env}

abbrev pub lease_ttl_ms : ℕ
lease_ttl_ms = 30000

abbrev pub same_type : StructureType → StructureType → Bool
same_type departamento departamento = true
same_type area area = true
same_type cargo cargo = true
same_type _ _ = false

unfoldable pub reserve : Env → StructureType → ℕ → Structure → Structure
reserve env t id st = record st {
  leases =
      record { structure_type = t; structure_id = id; expires_at = env.now + lease_ttl_ms }
      ∷ st.leases;
}

abbrev pub is_active_for : ℕ → StructureType → ℕ → Lease → Bool
is_active_for now t id l =
    same_type l.structure_type t && l.structure_id == id && ltb now l.expires_at

-- `countActive`
unfoldable pub count_active : Env → StructureType → ℕ → Structure → ℕ
count_active env t id st = length (select (is_active_for env.now t id) st.leases)
