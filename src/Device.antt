-- ===== src/Device.antt =====
-- Device classes and the per-device runtime (internal/device).
pub mod Class
pub mod Profile
pub mod Runtime
pub mod Hysteresis
pub mod Steps
pub mod Invariant
pub mod Transitions
pub mod Decay
pub mod Reload
pub mod Run
pub mod Sustained
pub mod Hints
pub mod Resolver
