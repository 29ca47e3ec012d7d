-- ===== src/Bufio.antt =====
-- common/bufio and common/network: writers of several buffers at once.
pub mod Vectorised
pub mod Gathered
pub mod Syscall
pub mod Sockaddr
mod Tests
