-- ===== src/Format.antt =====
-- plugins/e-acsl/share/e-acsl/e_acsl_format.h: the check of format strings.
pub mod Abbrev
pub mod Chars
pub mod Directive
pub mod Fetch
pub mod Validate
pub mod Printf
mod Tests
