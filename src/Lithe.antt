-- ===== src/Lithe.antt =====
-- src/lithe/upthread.c: threads that are contexts of the lithe library.
pub mod Contexts
pub mod Joining
