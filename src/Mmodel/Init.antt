-- ===== src/Mmodel/Init.antt =====
-- Which bytes of a block are initialized: the block parts of `initialize`, `full_init` and
-- `initialized` in bittree_model/e_acsl_bittree_mmodel.c, and the bit macros of e_acsl_bits.h.
pub mod Bitmap
pub mod Marking
pub mod Blocks
use frama_c_snapshot.Prelude.{
  ℕ, zero, suc, ◌+◌, ◌/◌, ◌%◌, Bool, true, false, Option, none, some, List, [], ◌∷◌, ◌==◌,
  if◌then◌else◌, bit_or, get_elem?, set, replicate, ltb, min, not, ◌&&◌,
}
use frama_c_snapshot.Prelude.Bits.{shr, pow2}
use frama_c_snapshot.Prelude.Run.{Run, ok, abort, fault, ◌>>=◌, of_option}
use frama_c_snapshot.Bittree.Block.{Block}

-- `checkbit(_bit, _number)`
abbrev pub checkbit : ℕ → ℕ → ℕ
checkbit bit number = shr number bit % 2

-- `setbit(_bit, _number)`
abbrev pub setbit : ℕ → ℕ → ℕ
setbit bit number = bit_or number (pow2 bit)

-- `needed_bytes(_size)`
abbrev pub needed_bytes : ℕ → ℕ
needed_bytes size = if size % 8 == 0 then size / 8 else size / 8 + 1

-- `init_ptr[byte]` for the offset in the block, where `int byte = offset/8`: an index that is not an
-- `int` is none of the array.
abbrev pub cell_at : List ℕ → ℕ → Option ℕ
cell_at cells offset = if ltb (offset / 8) (pow2 31) then get_elem? cells (offset / 8) else none

-- The rounds of the loop of `initialize` over the `size` offsets from `offset`: the cells, and the
-- count of initialized bytes. A cell outside of the array is a fault.
unfoldable pub mark_bytes : ℕ → ℕ → List ℕ → ℕ → Run (List ℕ × ℕ)
mark_bytes zero offset cells count = ok (cells, count)
mark_bytes (suc size) offset cells count = elim (cell_at cells offset) [
  | none ↦ fault
  | some cell ↦ elim (checkbit (offset % 8) cell == 0) [
    | true ↦
        mark_bytes size (offset + 1) (set cells (offset / 8) (setbit (offset % 8) cell)) (count + 1)
    | false ↦ mark_bytes size (offset + 1) cells count
  ]
]

-- The cells at the start of the loop: a new array of zeros, whose size is an `int`, or the block's
-- own.
abbrev pub init_cells : Block → Run (List ℕ)
init_cells b =
    if b.init_bytes == 0
    then (if ltb (needed_bytes b.size) (pow2 31)
        then ok (replicate (needed_bytes b.size) 0)
        else fault)
    else of_option b.init_ptr

-- whether `for(unsigned i = 0; i < size; i++)` ends by its test
abbrev pub loop_ends : ℕ → Bool
loop_ends size = ltb size (pow2 32)

-- `initialize`, for the `size` bytes of a block that begin at `offset`. From 2^32 bytes on the loop
-- never ends, or leaves the array, which is a fault.
unfoldable pub initialize_block : ℕ → ℕ → Block → Run Block
unfolding mark_bytes
initialize_block offset size b =
    if b.init_bytes == b.size
    then ok b
    else init_cells b >>= λ cells.
        if loop_ends size
        then (mark_bytes size offset cells b.init_bytes >>= λ marked. ok (record b {
          init_ptr = if marked.1 == b.size then none else some marked.0;
          init_bytes = marked.1;
        }))
        else fault

-- `full_init`, for a block
unfoldable pub full_init_block : Block → Block
full_init_block b = record b { init_ptr = none; init_bytes = b.size }

-- the rounds of the loop of `initialized`
unfoldable pub check_bytes : ℕ → ℕ → List ℕ → Run Bool
check_bytes zero offset cells = ok true
check_bytes (suc size) offset cells = elim (cell_at cells offset) [
  | none ↦ fault
  | some cell ↦ elim (checkbit (offset % 8) cell == 0) [
    | true ↦ ok false
    | false ↦ check_bytes size (offset + 1) cells
  ]
]

-- `initialized`, for the `size` bytes of a block that begin at `offset`. From 2^32 bytes on, the loop
-- ends only at a byte among the first 2^32 that is not initialized.
unfoldable pub initialized_block : ℕ → ℕ → Block → Run Bool
unfolding check_bytes
initialized_block offset size b =
    if b.init_bytes == 0
    then ok false
    else if b.init_bytes == b.size
    then ok true
    else of_option b.init_ptr >>= λ cells. check_bytes (min size (pow2 32)) offset cells >>= λ all.
        if all && not (loop_ends size) then fault else ok all
