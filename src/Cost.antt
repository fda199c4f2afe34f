-- ===== src/Cost.antt =====
-- What runs cost: src/orchestra/cost.
pub mod Ledger
pub mod Registry
pub mod Aggregator
pub mod Budget
