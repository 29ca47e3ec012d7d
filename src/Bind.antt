-- ===== src/Bind.antt =====
-- bind/: sockets that are bound to an interface.
pub mod Control
pub mod Linux
pub mod Darwin
pub mod Windows
pub mod Dialed
mod Tests
