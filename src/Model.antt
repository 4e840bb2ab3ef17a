-- ===== src/Model.antt =====
-- The domain model (internal/model): states, readings, device records, house record, signals.
pub mod Activity
pub mod Identity
pub mod Reading
pub mod Signal
pub mod Device
pub mod House
pub mod ActivityRecord
