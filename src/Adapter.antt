-- ===== src/Adapter.antt =====
-- Adapters, which turn messages of the broker into calls of the engine (internal/adapter).
pub mod Timestamps
pub mod Validate
pub mod Intercom
