-- ===== src/Routing.antt =====
-- The choice of a model: src/orchestra/routing.
pub mod Router
