-- ===== src/Ha.antt =====
-- patroni/ha.py: the leader race, and the synchronous replication.
pub mod State
pub mod Race
pub mod Manual
pub mod Healthiest
pub mod Prepromote
pub mod Multisync
pub mod Replication
pub mod Samples
mod Examples
