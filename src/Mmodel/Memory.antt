-- ===== src/Mmodel/Memory.antt =====
-- The state of the memory model, and the operations of
-- bittree_model/e_acsl_bittree_mmodel.c over it. An address is a word, and 0 is NULL. What the
-- public allocators return is an argument, `res`.
pub mod Write
use frama_c_snapshot.Prelude.{
  ℕ, zero, suc, ◌+◌, ◌-◌, ◌*◌, ◌/◌, ◌%◌, Bool, true, false, not, ◌&&◌, ◌||◌, Option, none, some,
  List, [], ◌∷◌, ◌++◌, ◌==◌, leb, ltb, if◌then◌else◌, bit_and, get_or, length, take, replicate,
}
use frama_c_snapshot.Prelude.Bits.{pow2}
use frama_c_snapshot.Prelude.Run.{Run, ok, abort, fault, ◌>>=◌, ◌>>◌, vassert, of_option}
use frama_c_snapshot.Bittree.Tables.{WordBits, bits}
use frama_c_snapshot.Bittree.Block.{Block, Node, leaf, inner, Root}
use frama_c_snapshot.Bittree.Trie.{bt_insert, bt_remove, bt_lookup, bt_find, bt_clean}
use frama_c_snapshot.Mmodel.Init.{
  needed_bytes, initialize_block, full_init_block, initialized_block,
}
use frama_c_snapshot.Mmodel.Bits.{nbr_bits_to_1, setbits}

pub record Memory : Type 0 where
  pub root : Root
  pub heap_allocation_size : ℕ
  pub heap_allocated_blocks : ℕ

-- An assignment through a `bt_block *`: the block of the leaf that starts where it does.
unfoldable pub write_block : Block → Node → Node
write_block b (leaf a m c) = if c.ptr == b.ptr then leaf a m b else leaf a m c
write_block b (inner a m l r) = inner a m (write_block b l) (write_block b r)

abbrev pub write_root : Block → Root → Root
write_root b none = none
write_root b (some t) = some (write_block b t)

abbrev pub put : Block → Memory → Memory
put b s = record s { root = write_root b s.root }

-- `bt_clean_block_init`
abbrev pub clean_block_init : Block → Block
clean_block_init b = record b { init_ptr = none; init_bytes = 0 }

module _ (w : WordBits) where
  -- a word with the opposite value
  abbrev pub neg_word : ℕ → ℕ
  neg_word v = (pow2 (bits w) - v) % pow2 (bits w)

  -- `update_heap_allocation(long size)`, of e_acsl_leak.h, on the word that stands for `size`
  unfoldable pub update_heap_allocation : ℕ → Memory → Memory
  update_heap_allocation size s = record s {
    heap_allocation_size = (s.heap_allocation_size + size) % pow2 (bits w);
    heap_allocated_blocks =
        if size == 0
        then s.heap_allocated_blocks
        else if ltb size (pow2 (bits w - 1))
        then (s.heap_allocated_blocks + 1) % pow2 (bits w)
        else (s.heap_allocated_blocks + pow2 (bits w) - 1) % pow2 (bits w);
  }

  unfoldable pub initialize : ℕ → ℕ → Memory → Run Memory
  initialize ptr size s =
      if ptr == 0
      then ok s
      else bt_find w s.root ptr >>= λ found. elim found [
        | none ↦ ok s
        | some b ↦ initialize_block (ptr - b.ptr) size b >>= λ b'. ok (put b' s)
      ]

  unfoldable pub full_init : ℕ → Memory → Run Memory
  full_init ptr s =
      if ptr == 0
      then ok s
      else bt_lookup s.root ptr >>= λ found. elim found [
        | none ↦ ok s
        | some b ↦ ok (put (full_init_block b) s)
      ]

  unfoldable pub mark_readonly : ℕ → Memory → Run Memory
  mark_readonly ptr s =
      if ptr == 0
      then ok s
      else bt_lookup s.root ptr >>= λ found. elim found [
        | none ↦ ok s
        | some b ↦ ok (put (record b { is_readonly = true }) s)
      ]

  unfoldable pub freeable : ℕ → Memory → Run Bool
  freeable ptr s =
      if ptr == 0
      then ok false
      else bt_lookup s.root ptr >>= λ found. elim found [
        | none ↦ ok false
        | some b ↦ ok b.is_freeable
      ]

  unfoldable pub initialized : ℕ → ℕ → Memory → Run Bool
  initialized ptr size s = bt_find w s.root ptr >>= λ found. elim found [
    | none ↦ ok false
    | some b ↦ initialized_block (ptr - b.ptr) size b
  ]

  unfoldable pub block_length : ℕ → Memory → Run ℕ
  block_length ptr s =
      bt_find w s.root ptr >>= λ found. elim found [ none ↦ abort | some b ↦ ok b.size ]

  unfoldable pub base_addr : ℕ → Memory → Run ℕ
  base_addr ptr s =
      bt_find w s.root ptr >>= λ found. elim found [ none ↦ abort | some b ↦ ok b.ptr ]

  unfoldable pub offset : ℕ → Memory → Run ℕ
  offset ptr s =
      bt_find w s.root ptr >>= λ found. elim found [ none ↦ abort | some b ↦ ok (ptr - b.ptr) ]

  -- The block of the memory from `ptr` on, if it has `size` bytes left and `base` lies in it too.
  -- The subtraction is that of words.
  unfoldable pub lookup_allocated : ℕ → ℕ → ℕ → Memory → Run (Option Block)
  lookup_allocated ptr size base s = bt_find w s.root ptr >>= λ found. elim found [
    | none ↦ ok none
    | some b ↦ bt_find w s.root base >>= λ found'. elim found' [
      | none ↦ ok none
      | some c ↦
          if b.ptr == c.ptr
          then (if leb size ((b.size + pow2 (bits w) - (ptr - b.ptr)) % pow2 (bits w))
              then ok (some b)
              else ok none)
          else ok none
    ]
  ]

  unfoldable pub allocated : ℕ → ℕ → ℕ → Memory → Run Bool
  unfolding lookup_allocated
  allocated addr size base s = lookup_allocated addr size base s >>= λ found.
      ok (elim found [ none ↦ false | some _ ↦ true ])

  unfoldable pub readonly : ℕ → Memory → Run Bool
  readonly ptr s =
      bt_find w s.root ptr >>= λ found. elim found [ none ↦ abort | some b ↦ ok b.is_readonly ]

  unfoldable pub writeable : ℕ → ℕ → ℕ → Memory → Run Bool
  unfolding allocated readonly
  writeable addr size base s = allocated addr size base s >>= λ there. elim there [
    | false ↦ ok false
    | true ↦ readonly addr s >>= λ fixed. ok (not fixed)
  ]

  unfoldable pub valid : ℕ → ℕ → ℕ → Memory → Run Bool
  unfolding lookup_allocated
  valid ptr size base s = lookup_allocated ptr size base s >>= λ found.
      ok (elim found [ none ↦ false | some b ↦ not b.is_readonly ])

  unfoldable pub valid_read : ℕ → ℕ → ℕ → Memory → Run Bool
  unfolding lookup_allocated
  valid_read ptr size base s =
      lookup_allocated ptr size base s >>= λ found. ok (elim found [ none ↦ false | some _ ↦ true ])
