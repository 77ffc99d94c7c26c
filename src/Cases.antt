-- ===== src/Cases.antt =====
-- Cases: apps/api/src/modules/cases.
pub mod Status
pub mod Policy
pub mod Repository
pub mod Service
pub mod Creation
