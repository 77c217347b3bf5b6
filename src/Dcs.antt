-- ===== src/Dcs.antt =====
-- patroni/dcs/__init__.py: what is kept in the distributed configuration store.
pub mod SyncState
pub mod Raft
