-- ===== src/Mmodel/Alloc.antt =====
-- How the memory model follows allocations: the operations of
-- bittree_model/e_acsl_bittree_mmodel.c that make, move and drop blocks, and `powof2` of
-- e_acsl_malloc.h. What the public allocators return is an argument (`res`, `new_ptr`).
pub mod Heap
pub mod Power
pub mod Stack
use frama_c_snapshot.Prelude.{
  ℕ, zero, suc, ◌+◌, ◌-◌, ◌*◌, ◌/◌, ◌%◌, Bool, true, false, not, ◌&&◌, ◌||◌, Option, none, some,
  List, [], ◌∷◌, ◌++◌, ◌==◌, leb, ltb, if◌then◌else◌, bit_and, get_or, length, take, replicate,
}
use frama_c_snapshot.Prelude.Bits.{pow2}
use frama_c_snapshot.Prelude.Run.{Run, ok, abort, fault, ◌>>=◌, ◌>>◌, of_option}
use frama_c_snapshot.Bittree.Tables.{WordBits, bits}
use frama_c_snapshot.Bittree.Block.{Block}
use frama_c_snapshot.Bittree.Trie.{bt_insert, bt_remove, bt_lookup, bt_clean}
use frama_c_snapshot.Mmodel.Init.{needed_bytes}
use frama_c_snapshot.Mmodel.Bits.{nbr_bits_to_1, setbits}
use frama_c_snapshot.Mmodel.Memory.{Memory, put, clean_block_init, neg_word, update_heap_allocation}

-- the loop of `powof2` with fuel
unfoldable pub halve_even : ℕ → ℕ → Run ℕ
halve_even zero x = fault
halve_even (suc fuel) x =
    let rest = halve_even fuel (x / 2) in if bit_and x 1 == 0 && ltb 1 x then rest else ok x

-- `static int powof2(size_t x)`: a word has fewer than `x` halves, or none.
unfoldable pub powof2 : ℕ → Run Bool
unfolding halve_even
powof2 x = halve_even (suc x) x >>= λ odd. ok (odd == 1)

-- the block that `store_block` tracks
abbrev pub new_block : ℕ → ℕ → Block
new_block ptr size = record {
  ptr = ptr;
  size = size;
  init_ptr = none;
  init_bytes = 0;
  is_readonly = false;
  is_freeable = false;
}

-- the loop of `realloc` that counts the initialized bytes of the moved cells
unfoldable pub count_bits : List ℕ → ℕ
count_bits [] = 0
count_bits (cell ∷ cells) = get_or nbr_bits_to_1 cell 0 + count_bits cells

-- What `realloc` does to the fields of the block: the new size, and which of its bytes are
-- initialized.
unfoldable pub resize_block : ℕ → Block → Run Block
unfolding count_bits
resize_block size b =
    if b.init_bytes == 0
    then ok (record b { size = size; is_freeable = true })
    else if b.init_bytes == b.size
    then (if leb size b.size
        then ok (record b { size = size; init_bytes = size; is_freeable = true })
        else setbits b.size (replicate (needed_bytes size) 0) >>= λ cells.
            ok (record b { size = size; init_ptr = some cells; is_freeable = true }))
    else of_option b.init_ptr >>= λ old.
        let nb = needed_bytes size in
        let cells = take nb old ++ replicate (nb - needed_bytes b.size) 0 in
        let count = count_bits cells in
        ok (record b {
          size = size;
          init_ptr = if count == size || count == 0 then none else some cells;
          init_bytes = count;
          is_freeable = true;
        })

module _ (w : WordBits) where
  -- `store_block(void *ptr, size_t size)`: the block tracked, if any
  unfoldable pub store_block : ℕ → ℕ → Memory → Option Block × Memory
  store_block ptr size s =
      if ptr == 0
      then (none, s)
      else (some (new_block ptr size), record s { root = bt_insert w (new_block ptr size) s.root })

  unfoldable pub store_freeable_block : ℕ → ℕ → Bool → Memory → Memory
  unfolding store_block
  store_freeable_block ptr size init_bytes s =
      if ptr == 0
      then s
      else let s' = update_heap_allocation w size (store_block ptr size s).1 in
        put
          (record (new_block ptr size) {
            is_freeable = true;
            init_bytes = if init_bytes then size else 0;
          })
          s'

  unfoldable pub delete_block : ℕ → Memory → Run Memory
  delete_block ptr s =
      if ptr == 0
      then ok s
      else bt_lookup s.root ptr >>= λ found. elim found [
        | none ↦ ok s
        | some b ↦ bt_remove w b.ptr (put (clean_block_init b) s).root >>= λ root.
            ok (record s { root = root })
      ]

  -- The result of the source is always NULL, since an inner `tmp` hides the outer one.
  unfoldable pub store_block_duplicate : ℕ → ℕ → Memory → Run Memory
  unfolding delete_block store_block
  store_block_duplicate ptr size s =
      if ptr == 0
      then ok s
      else bt_lookup s.root ptr >>= λ found. elim found [
        | none ↦ ok (store_block ptr size s).1
        | some b ↦ delete_block ptr s >>= λ s'. ok (store_block ptr size s').1
      ]

  -- `malloc`: the address returned, and the memory
  unfoldable pub malloc : ℕ → ℕ → Memory → ℕ × Memory
  unfolding store_freeable_block
  malloc res size s = if size == 0 then (0, s) else (res, store_freeable_block res size false s)

  unfoldable pub calloc : ℕ → ℕ → ℕ → Memory → ℕ × Memory
  unfolding store_freeable_block
  calloc res nbr_block size_block s =
      let size = nbr_block * size_block % pow2 (bits w) in
      if size == 0 then (0, s) else (res, store_freeable_block res size true s)

  unfoldable pub aligned_alloc : ℕ → ℕ → ℕ → Memory → Run (ℕ × Memory)
  unfolding powof2 store_freeable_block
  aligned_alloc res alignment size s =
      if size == 0 || alignment == 0
      then ok (0, s)
      else powof2 alignment >>= λ power.
          if not power || not (size % alignment == 0)
          then ok (0, s)
          else ok (res, store_freeable_block res size false s)

  -- `posix_memalign`: the code returned (`none`: -1), and the memory. The public function
  -- returned `code`, and wrote `res` to `*memptr`.
  unfoldable pub posix_memalign : ℕ → ℕ → ℕ → ℕ → Memory → Run (Option ℕ × Memory)
  unfolding powof2 store_freeable_block
  posix_memalign code res alignment size s =
      if size == 0 || alignment == 0
      then ok (none, s)
      else powof2 alignment >>= λ power.
          if not power || not (alignment % (bits w / 8) == 0)
          then ok (none, s)
          else ok (some code, if code == 0 then store_freeable_block res size false s else s)

  -- `free`, where NULL is a valid argument
  unfoldable pub free : ℕ → Memory → Run Memory
  free ptr s =
      if ptr == 0
      then ok s
      else bt_lookup s.root ptr >>= λ found. elim found [
        | none ↦ abort
        | some b ↦
            let s' = put (clean_block_init b) (update_heap_allocation w (neg_word w b.size) s) in
            bt_remove w b.ptr s'.root >>= λ root. ok (record s' { root = root })
      ]

  -- the part of `realloc` that enters the block again at a new start
  unfoldable pub move_block : ℕ → Block → Memory → Run Memory
  move_block new_ptr b s =
      if b.ptr == new_ptr
      then ok s
      else bt_remove w b.ptr s.root >>= λ root.
          ok (record s { root = bt_insert w (record b { ptr = new_ptr }) root })

  -- `realloc`: an untracked address is a null pointer that is followed.
  unfoldable pub realloc : ℕ → ℕ → ℕ → Memory → Run (ℕ × Memory)
  unfolding malloc free move_block resize_block
  realloc new_ptr ptr size s =
      if ptr == 0
      then ok (malloc new_ptr size s)
      else if size == 0
      then (free ptr s >>= λ s'. ok (0, s'))
      else bt_lookup s.root ptr >>= λ found. elim found [
        | none ↦ fault
        | some b ↦
            if new_ptr == 0
            then ok (0, s)
            else let s' =
                update_heap_allocation w (neg_word w b.size) (update_heap_allocation w size s) in
              move_block new_ptr b s' >>= λ moved.
              resize_block size (record b { ptr = new_ptr }) >>= λ resized.
              ok (new_ptr, put resized moved)
      ]

-- `memory_clean`: the blocks freed, and the memory behind it
unfoldable pub memory_clean : Memory → List Block × Memory
memory_clean s = let (freed, root) = bt_clean s.root in (freed, record s { root = root })
