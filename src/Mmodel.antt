-- ===== src/Mmodel.antt =====
-- plugins/e-acsl/share/e-acsl/bittree_model/e_acsl_bittree_mmodel.c: the memory model over the trie.
pub mod Init
pub mod Bits
pub mod Memory
pub mod Alloc
pub mod Steps
mod Tests
