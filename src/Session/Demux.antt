-- ===== src/Session/Demux.antt =====
-- session.go with the datagrams of many flows: what of them comes to one flow.
pub mod Alone
pub mod ByFlow
pub mod Sorted
pub mod Addressed
pub mod Life
mod Tests
