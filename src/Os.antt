-- ===== src/Os.antt =====
-- The support of the operating system.
pub mod Sys
