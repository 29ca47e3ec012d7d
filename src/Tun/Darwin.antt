-- ===== src/Tun/Darwin.antt =====
-- tun_darwin.go and tun_darwin_gvisor.go: the device on macOS, and its endpoint.
pub mod Name
pub mod System
pub mod Requests
pub mod Requested
pub mod Posted
pub mod Configure
pub mod Routable
pub mod Kept
pub mod Descriptors
pub mod Writer
pub mod Endpoint
mod Tests
mod PostedTests
pub mod Dispatch
