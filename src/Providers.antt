-- ===== src/Providers.antt =====
-- LLM providers: src/orchestra/providers.
pub mod Failover
pub mod Cached
