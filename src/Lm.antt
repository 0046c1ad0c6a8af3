-- ===== src/Lm.antt =====
-- lm.h: the parts of the single-header library that keep state.
pub mod Strings
pub mod Log
pub mod MemSize
pub mod Files
mod Examples
