-- ===== src/Sync.antt =====
-- patroni/postgresql/sync.py: `synchronous_standby_names` and the choice of synchronous nodes.
pub mod Names
pub mod Replicas
pub mod Handler
mod Examples
