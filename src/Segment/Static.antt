-- ===== src/Segment/Static.antt =====
-- The shadow memory of the stack, of globals and of thread-local storage, in
-- segment_model/e_acsl_segment_tracking.h: blocks of at most 8 bytes have a code for their length
-- and the offset in each byte of the primary shadow; longer ones have their size and offset in the
-- secondary shadow, for each 8 bytes. A shadow byte stands at the address that it shadows.
use frama_c_snapshot.Prelude.{
  ℕ, zero, suc, ◌+◌, ◌-◌, ◌*◌, ◌/◌, ◌%◌, Bool, true, false, ◌&&◌, List, [], ◌∷◌, ◌==◌, leb, ltb,
  if◌then◌else◌, bit_or, get_or, min,
}
use frama_c_snapshot.Prelude.Bits.{pow2}
use frama_c_snapshot.Segment.Words.{Bytes, update, store, load, or_word, has_bits, fill}
pub mod Alloca
pub mod Info
pub mod Blocks
pub mod Init
pub mod Marking

pub record Shadows : Type 0 where
  pub primary : Bytes
  pub secondary : Bytes

abbrev pub long_block : ℕ
long_block = 8

abbrev pub long_block_index_start : ℕ
long_block_index_start = 48

abbrev pub long_block_mask : ℕ
long_block_mask = 15913703276567643328

abbrev pub short_lengths : List ℕ
short_lengths =
    0 ∷ 1 ∷ 2 ∷ 2 ∷ 3 ∷ 3 ∷ 3 ∷ 4 ∷ 4 ∷ 4 ∷ 4 ∷ 5 ∷ 5 ∷ 5 ∷ 5 ∷ 5 ∷ 6 ∷ 6 ∷ 6 ∷ 6 ∷ 6 ∷ 6 ∷ 7 ∷ 7
    ∷ 7 ∷ 7 ∷ 7 ∷ 7 ∷ 7 ∷ 8 ∷ 8 ∷ 8 ∷ 8 ∷ 8 ∷ 8 ∷ 8 ∷ 8 ∷ []

abbrev pub short_offsets : List ℕ
short_offsets =
    0 ∷ 0 ∷ 0 ∷ 1 ∷ 0 ∷ 1 ∷ 2 ∷ 0 ∷ 1 ∷ 2 ∷ 3 ∷ 0 ∷ 1 ∷ 2 ∷ 3 ∷ 4 ∷ 0 ∷ 1 ∷ 2 ∷ 3 ∷ 4 ∷ 5 ∷ 0 ∷ 1
    ∷ 2 ∷ 3 ∷ 4 ∷ 5 ∷ 6 ∷ 0 ∷ 1 ∷ 2 ∷ 3 ∷ 4 ∷ 5 ∷ 6 ∷ 7 ∷ []

abbrev pub short_offsets_base : List ℕ
short_offsets_base = 0 ∷ 1 ∷ 2 ∷ 4 ∷ 7 ∷ 11 ∷ 16 ∷ 22 ∷ 29 ∷ []

abbrev pub static_init_masks : List ℕ
static_init_masks =
    0 ∷ 1 ∷ 257 ∷ 65793 ∷ 16843009 ∷ 4311810305 ∷ 1103823438081 ∷ 282578800148737
    ∷ 72340172838076673 ∷ []

abbrev pub static_readonly_masks : List ℕ
static_readonly_masks =
    0 ∷ 2 ∷ 514 ∷ 131586 ∷ 33686018 ∷ 8623620610 ∷ 2207646876162 ∷ 565157600297474
    ∷ 144680345676153346 ∷ []

-- the loop of `shadow_alloca` over the segments of a long block, from the offset `i`
unfoldable pub alloca_segments : ℕ → ℕ → ℕ → ℕ → Shadows → Shadows
unfolding store
alloca_segments zero ptr size i s = s
alloca_segments (suc n) ptr size i s = alloca_segments n ptr size (i + long_block) (record {
  primary = store 8 (ptr + i) long_block_mask s.primary;
  secondary = store 4 (ptr + i + 4) i (store 4 (ptr + i) size s.secondary);
})

-- the loop over its last bytes
unfoldable pub alloca_remainder : ℕ → ℕ → ℕ → Bytes → Bytes
alloca_remainder zero ptr i m = m
alloca_remainder (suc n) ptr i m =
    let offset = i % long_block + long_block_index_start + long_block in
    alloca_remainder n ptr (i + 1) (update m (ptr + i) (offset * 4 % 256))

-- the loop over the bytes of a short block
unfoldable pub alloca_short : ℕ → ℕ → ℕ → ℕ → Bytes → Bytes
alloca_short zero ptr base i m = m
alloca_short (suc n) ptr base i m =
    alloca_short n ptr base (i + 1) (update m (ptr + i) ((base + i) * 4 % 256))

-- `shadow_alloca(void *ptr, size_t size)`, for a size that an `int` can hold
unfoldable pub shadow_alloca : ℕ → ℕ → Shadows → Shadows
unfolding alloca_segments alloca_remainder alloca_short
shadow_alloca ptr size s =
    if size == 0
    then record s { primary = update s.primary ptr (bit_or (s.primary ptr) 2) }
    else if ltb long_block size
    then (let boundary = size - size % long_block in
        let s' = alloca_segments (boundary / long_block) ptr size 0 s in
        record s' { primary = alloca_remainder (size % long_block) ptr boundary s'.primary })
    else record s { primary = alloca_short size ptr (get_or short_offsets_base size 0) 0 s.primary }

-- the queries 'B', 'O' and 'L'
pub data Query : Type 0 where
  base offset length : Query

-- a difference of words
unfoldable pub sub_word : ℕ → ℕ → ℕ
sub_word a b = (a + pow2 64 - b) % pow2 64

-- `static_info`
unfoldable pub static_info : ℕ → Query → Shadows → ℕ
unfolding load sub_word
static_info addr type s =
    let code = s.primary addr / 4 in
    if s.primary addr == 0
    then 0
    else if leb long_block_index_start code
    then (let skip = code - long_block_index_start in
        let start = sub_word addr skip in
        let size = load 4 start s.secondary in
        let before = load 4 (start + 4) s.secondary in
        elim type [ base ↦ sub_word start before | offset ↦ before + skip | length ↦ size ])
    else elim type [
      | base ↦ sub_word addr (get_or short_offsets code 0)
      | offset ↦ get_or short_offsets code 0
      | length ↦ get_or short_lengths code 0
    ]

-- the end of `static_allocated`, at the offset and the length that the shadow gives
abbrev pub fits : ℕ → ℕ → ℕ → ℕ → ℕ → Bool
fits addr size base_ptr skip len =
    let start = sub_word addr skip in
    let inside = leb ((skip + size) % pow2 64) len in
    if addr == base_ptr
    then inside
    else leb start base_ptr && ltb base_ptr ((start + len) % pow2 64) && inside

unfoldable pub static_allocated : ℕ → ℕ → ℕ → Shadows → Bool
unfolding load sub_word
static_allocated addr size base_ptr s =
    let code = s.primary addr / 4 in
    if s.primary addr == 0
    then false
    else if leb long_block_index_start code
    then (let skip = code - long_block_index_start in
        let start = sub_word addr skip in
        fits addr size base_ptr (load 4 (start + 4) s.secondary + skip) (load 4 start s.secondary))
    else fits addr size base_ptr (get_or short_offsets code 0) (get_or short_lengths code 0)

-- The loop that ORs a mask for each 8 bytes of a region and one for the rest, with fuel.
unfoldable pub set_masks : List ℕ → ℕ → ℕ → ℕ → Bytes → Bytes
unfolding or_word
set_masks masks zero addr size m = m
set_masks masks (suc fuel) addr size m = elim (size == 0) [
  | true ↦ m
  | false ↦
      set_masks masks fuel (addr + 8) (size - 8) (or_word 8 addr (get_or masks (min size 8) 0) m)
]

-- the rounds of a loop `while (size > 0)` on the `long` of a word: none for a negative one
abbrev pub positive : ℕ → ℕ
positive size = if ltb size (pow2 63) then size else 0

-- each round takes a byte at least
unfoldable pub initialize_static_region : ℕ → ℕ → Shadows → Shadows
unfolding set_masks
initialize_static_region addr size s = record s {
  primary = set_masks static_init_masks (positive size) addr (positive size) s.primary;
}

unfoldable pub mark_readonly_region : ℕ → ℕ → Shadows → Shadows
unfolding set_masks
mark_readonly_region addr size s = record s {
  primary = set_masks static_readonly_masks (positive size) addr (positive size) s.primary;
}

-- the loop of `static_initialized`, with fuel
unfoldable pub check_masks : ℕ → ℕ → ℕ → Bytes → Bool
unfolding has_bits
check_masks zero addr size m = true
check_masks (suc fuel) addr size m = elim (size == 0) [
  | true ↦ true
  | false ↦
      has_bits 8 addr (get_or static_init_masks (min size 8) 0) m
      && check_masks fuel (addr + 8) (size - 8) m
]

unfoldable pub static_initialized : ℕ → ℕ → Shadows → Bool
unfolding static_allocated check_masks
static_initialized addr size s =
    if static_allocated addr size addr s
    then check_masks (positive size) addr (positive size) s.primary
    else false

-- `shadow_freea(void *ptr)`, at the base address of a block
unfoldable pub shadow_freea : ℕ → Shadows → Shadows
unfolding static_info fill
shadow_freea ptr s =
    let size = static_info ptr length s in
    record { primary = fill ptr 0 size s.primary; secondary = fill ptr 0 size s.secondary }

-- `global_readonly`
unfoldable pub global_readonly : ℕ → Shadows → Bool
global_readonly addr s = s.primary addr / 2 % 2 == 1
