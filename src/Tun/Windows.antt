-- ===== src/Tun/Windows.antt =====
-- tun_windows.go and tun_windows_gvisor.go: the device on Windows and its link endpoint.
pub mod Firewall
pub mod Configure
pub mod Session
pub mod Endpoint
pub mod Dispatch
pub mod Dns
pub mod Writer
mod LoopTests
mod Tests
