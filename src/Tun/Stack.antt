-- ===== src/Tun/Stack.antt =====
-- stack.go and stack_gvisor.go: the network stack, and the connections that it hands to a handler.
pub mod Library
pub mod Connection
pub mod Closed
pub mod Gvisor
mod Tests
