-- ===== src/Checked.antt =====
-- plugins/e-acsl/share/e-acsl/e_acsl_libc_replacements.h: string functions that check their
-- arguments against the memory model before they call the C library.
pub mod Spaces
pub mod Calls
mod Tests
