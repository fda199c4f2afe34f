-- ===== src/Identity.antt =====
-- Who an agent acts for: src/orchestra/identity.
pub mod Types
pub mod Baggage
pub mod Ucan
