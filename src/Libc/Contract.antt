-- ===== src/Libc/Contract.antt =====
-- The contracts that the headers of share/libc state in ACSL, as predicates on functions, and what
-- the functions of the sources do about them.
pub mod Chars
pub mod Axioms
pub mod Strings
mod Tests
