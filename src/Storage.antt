-- ===== src/Storage.antt =====
-- Events, stores and projection: src/orchestra/storage.
pub mod Events
pub mod Store
