-- ===== src/Security.antt =====
-- Guards around agents: src/orchestra/security.
pub mod CircuitBreaker
pub mod Acl
pub mod Guardrails
pub mod RateLimit
