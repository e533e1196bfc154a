-- ===== src/Sh9.antt =====
-- The shell sh9: its errors, its variables and the arithmetic of `$((...))`.
pub mod Outcome
pub mod Int64
pub mod Variables
pub mod Arithmetic
pub mod Glob
