-- ===== src/Energy.antt =====
-- Energy accounting (internal/energy): the import counter, the power integrator, the choice
-- between the two and their divergence.
pub mod Counter
pub mod Integration
pub mod Strategy
