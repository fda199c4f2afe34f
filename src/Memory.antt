-- ===== src/Memory.antt =====
-- The memory of the agents: src/orchestra/memory.
pub mod Slru
pub mod Tiers
