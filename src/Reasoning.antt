-- ===== src/Reasoning.antt =====
-- Reasoning strategies: src/orchestra/reasoning.
pub mod Tot
