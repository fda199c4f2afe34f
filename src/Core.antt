-- ===== src/Core.antt =====
-- The execution engine: src/orchestra/core.
pub mod State
pub mod Edges
pub mod Nodes
pub mod Distill
pub mod Compiled
pub mod Graph
pub mod Agent
