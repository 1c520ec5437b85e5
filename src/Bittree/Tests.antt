-- ===== src/Bittree/Tests.antt =====
-- Runs of the trie, and its theorems at concrete blocks.
use frama_c_snapshot.Prelude.{
  ℕ, ◌≡◌, ◌≤◌, refl, false, none, some, arith, ◌==◌, if◌then◌else◌, bit_and, bit_xor, get_elem?,
  ◌-◌,
}
use frama_c_snapshot.Prelude.Run.{ok}
use frama_c_snapshot.Bittree.Tables.{w16, w32, w64, tmasks}
use frama_c_snapshot.Bittree.Mask.{mask, mask_search, word_max}
use frama_c_snapshot.Bittree.Mask.Search.{mask_search_total}
use frama_c_snapshot.Bittree.Mask.Prefix.{mask_contract}
use frama_c_snapshot.Bittree.Block.{Block, Node, inner, Root}
use frama_c_snapshot.Bittree.Trie.{new_leaf, bt_insert, bt_remove, bt_lookup, bt_find}
use frama_c_snapshot.Bittree.Trie.Shape.{Trie, fork}
use frama_c_snapshot.Bittree.Trie.Lookup.{tracked, bt_lookup-tracked}
use frama_c_snapshot.Bittree.Trie.Join.{new_leaf-Trie}
use frama_c_snapshot.Bittree.Trie.Insert.{bt_insert-Trie}
use frama_c_snapshot.Bittree.Trie.Remove.{IsTrie, tracked_root, bt_remove-Trie}
use frama_c_snapshot.Bittree.Trie.Below.{last_below, containing}
use frama_c_snapshot.Bittree.Trie.Find.{bt_find-last_below}

abbrev block : ℕ → ℕ → Block
block p n = record {
  ptr = p;
  size = n;
  init_ptr = none;
  init_bytes = 0;
  is_readonly = false;
  is_freeable = false;
}

abbrev low : Block
low = block 0x1000 16

abbrev high : Block
high = block 0x1018 8

abbrev one : Node
one = new_leaf w64 low

one-Trie : Trie w64 0 one
one-Trie = new_leaf-Trie w64 low (omega arith)

mask_runs : (mask w64 0x7fff_0010 0x7fff_0018 ≡ 0xffff_ffff_ffff_fff0) × (mask w16 5 5 ≡ 0xffff)
unfolding mask
mask_runs = (refl, refl)

mask_contract_example :
    ((i : ℕ) × (i ≤ 32) × (get_elem? (tmasks w32) i ≡ some (mask w32 0xf0 0xff)))
    × (bit_and 0xf0 (mask w32 0xf0 0xff) ≡ bit_and 0xff (mask w32 0xf0 0xff))
    × ((i t : ℕ)
        → get_elem? (tmasks w32) i ≡ some t
        → bit_and 0xf0 t ≡ bit_and 0xff t
        → t ≤ mask w32 0xf0 0xff)
mask_contract_example = mask_contract w32 0xf0 0xff (omega arith) (omega arith)

mask_search_total_example :
    mask_search w64 (word_max w64 - bit_xor 0x1000 0x1018) ≡ some (mask w64 0x1000 0x1018)
mask_search_total_example = mask_search_total w64 0x1000 0x1018 (omega arith) (omega arith)

one-fresh : tracked one 0x1018 ≡ none
unfolding tracked
one-fresh = refl

bt_insert-Trie_example :
    (i : ℕ) × (t' : Node) × (bt_insert w64 high (some one) ≡ some t')
    × Trie w64 i t'
    × ((y : ℕ) → tracked t' y ≡ (if 0x1018 == y then some high else tracked one y))
bt_insert-Trie_example = bt_insert-Trie w64 high 0 one one-Trie (omega arith) one-fresh

abbrev two : Node
two = inner 0x1000 0xffff_ffff_ffff_ffe0 (new_leaf w64 low) (new_leaf w64 high)

two_inserted : bt_insert w64 high (some one) ≡ some two
unfolding bt_insert mask
two_inserted = refl

two-Trie : Trie w64 5 two
two-Trie =
    fork (omega arith) (omega arith) refl (omega arith) (omega arith) refl refl
      (new_leaf-Trie w64 low (omega arith)) (new_leaf-Trie w64 high (omega arith))

bt_lookup-tracked_example : bt_lookup (some two) 0x1018 ≡ ok (tracked two 0x1018)
bt_lookup-tracked_example = bt_lookup-tracked w64 5 two 0x1018 two-Trie (omega arith)

bt_find-last_below_example :
    bt_find w64 (some two) 0x1005 ≡ ok (containing (last_below two 0x1005) 0x1005)
bt_find-last_below_example =
    bt_find-last_below w64 5 two 0x1005 two-Trie (omega arith) (omega arith)
      (omega arith, omega arith)

two-tracked : tracked two 0x1000 ≡ some low
unfolding tracked
two-tracked = refl

bt_remove-Trie_example :
    (root : Root) × (bt_remove w64 0x1000 (some two) ≡ ok root)
    × IsTrie w64 root
    × ((y : ℕ) → tracked_root root y ≡ (if 0x1000 == y then none else tracked two y))
bt_remove-Trie_example = bt_remove-Trie w64 5 two 0x1000 low two-Trie (omega arith) two-tracked

finds_inside :
    (bt_find w64 (some two) 0x101f ≡ ok (some high)) × (bt_find w64 (some two) 0x1010 ≡ ok none)
unfolding bt_find
finds_inside = (refl, refl)
