-- ===== src/Cycle.antt =====
-- patroni/ha.py: the cycle of the HA loop, what it asks of PostgreSQL and of the DCS, in order.
pub mod Exec
pub mod Node
pub mod Lock
pub mod Demote
pub mod Follow
pub mod Primary
pub mod Unhealthy
pub mod Startup
pub mod Bootstrap
pub mod Restart
pub mod Run
pub mod Loop
pub mod Safety
pub mod Demotes
mod Examples
