-- ===== src/Str.antt =====
-- lib/string.c: the string and memory routines that the kernel and the user programs share.
pub mod Memory
pub mod Number
pub mod Scan
pub mod Move
pub mod Compare
pub mod Copy
mod Tests
