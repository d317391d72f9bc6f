-- ===== src/Read.antt =====
-- src/read.c: reading makefiles.
pub mod Conditional
pub mod Unquote
