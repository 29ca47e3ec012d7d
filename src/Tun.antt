-- ===== src/Tun.antt =====
-- The root package: the options of a device, its name, and the ranges that are routed into it.
pub mod Options
pub mod Ranges
pub mod Names
pub mod Linux
pub mod Windows
pub mod Darwin
pub mod Stack
mod Tests
