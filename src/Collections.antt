-- ===== src/Collections.antt =====
-- patroni/collections.py.
pub mod CaseInsensitiveSet
pub mod CaseInsensitiveDict
mod Examples
