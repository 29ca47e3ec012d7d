-- ===== src/Buf.antt =====
-- common/buf: the pooled allocator, the byte buffer over it, and lists of buffers.
pub mod Alloc
pub mod Buffer
pub mod Queue
pub mod Owner
pub mod Source
mod Tests
