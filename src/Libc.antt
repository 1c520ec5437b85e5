-- ===== src/Libc.antt =====
-- share/libc: the C library that the analyses run, on characters and on strings.
pub mod Ctype
pub mod Bytes
pub mod Scan
pub mod Write
pub mod Wide
pub mod Number
pub mod Alloc
pub mod Finite
pub mod Inttypes
pub mod Entropy
pub mod Env
pub mod Contract
pub mod Unknown
mod Tests
