-- ===== src/Quorum.antt =====
-- patroni/quorum.py: the state machine behind `synchronous_standby_names` and the `/sync` key.
pub mod State
pub mod Run
pub mod Resolver
pub mod Safety
mod Examples
pub mod Stuck
pub mod Factor
pub mod Steady
pub mod Overlap
