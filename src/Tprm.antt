-- ===== src/Tprm.antt =====
-- The vendor and deal review of src/orchestra_tprm: a workflow on the graph engine.
pub mod Schemas
pub mod RiskScore
pub mod Policy
pub mod Specialist
pub mod DocRouter
pub mod Graph
