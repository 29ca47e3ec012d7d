-- ===== src/Tun/Linux.antt =====
-- tun_linux.go: the device's routes and policy rules, and their set-up and removal over netlink.
pub mod Rules
pub mod System
pub mod Netlink
pub mod Device
pub mod Flags
pub mod Dns
mod Tests
mod DeviceTests
