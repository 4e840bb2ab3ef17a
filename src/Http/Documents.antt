-- ===== src/Http/Documents.antt =====
-- The documents that the HTTP API answers with (internal/httpapi/dto.go).
pub mod Ages
pub mod Devices
pub mod Houses
pub mod Snapshots
pub mod Warnings
pub mod Profiles
