-- ===== src/Bittree.antt =====
-- plugins/e-acsl/share/e-acsl/bittree_model/e_acsl_bittree.h: the Patricia trie of the memory model.
pub mod Tables
pub mod Mask
pub mod Block
pub mod Trie
mod Tests
