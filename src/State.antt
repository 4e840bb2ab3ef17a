-- ===== src/State.antt =====
-- The state engine (internal/state).
pub mod ActivityLog
pub mod House
pub mod SignalStore
pub mod Electricity
pub mod Availability
pub mod Entry
pub mod Store
pub mod Discovery
pub mod Presence
pub mod Canonical
