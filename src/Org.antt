-- ===== src/Org.antt =====
-- The structure of an organisation, and the claims that keep a part of it from being deleted:
-- services/org-service/src/org-structure.
pub mod Store
pub mod Leases
pub mod Departamentos
pub mod Areas
pub mod Cargos
pub mod Reads
pub mod Calls
pub mod Tree
pub mod Tests
