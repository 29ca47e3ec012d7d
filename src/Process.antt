-- ===== src/Process.antt =====
-- process/: the process that owns a socket.
pub mod Common
pub mod Windows
pub mod Linux
pub mod Darwin
mod Tests
