-- ===== src/Quorum/Resolver.antt =====
-- The methods of `QuorumStateResolver`, patroni/quorum.py.
pub mod Updates
pub mod Phases
pub mod Iterate
