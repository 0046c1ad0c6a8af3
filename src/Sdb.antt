-- ===== src/Sdb.antt =====
-- sdhs/Sdb.h: the single-header library of the sensor data system.
pub mod Memory
pub mod Arena
pub mod Strings
pub mod Log
pub mod MemSize
pub mod Rng
pub mod Tokens
pub mod MemMap
pub mod Files
mod Examples
