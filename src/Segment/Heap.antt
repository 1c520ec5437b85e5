-- ===== src/Segment/Heap.antt =====
-- The shadow memory of the heap, in segment_model/e_acsl_segment_tracking.h: each 32 bytes of a
-- block have its base address in their first shadow word, the first 32 bytes its length in the
-- second. A shadow byte stands at the address that it shadows; the bit `addr - heap_start` of the
-- init shadow says whether the byte at `addr` is initialized. What the public allocators return is
-- an argument (`res`), as is what `mspace_least_addr` returns (`least`). Builds without debug and
-- temporal checks, and with strong validity.
pub mod Tracks
pub mod Blocks
pub mod Init
use frama_c_snapshot.Prelude.{
  ℕ, zero, suc, ◌+◌, ◌-◌, ◌*◌, ◌/◌, ◌%◌, Bool, true, false, ◌&&◌, ◌||◌, not, ◌==◌, leb, ltb,
  if◌then◌else◌, bit_or, bit_and, min,
}
use frama_c_snapshot.Prelude.Bits.{pow2}
use frama_c_snapshot.Prelude.Run.{Run, ok, abort, fault, vassert, ◌>>=◌, ◌>>◌}
use frama_c_snapshot.Mmodel.Bits.{one64, low_ones}
use frama_c_snapshot.Mmodel.Alloc.{powof2}
use frama_c_snapshot.Segment.Words.{Bytes, update, store, load, or_word, fill, copy}
use frama_c_snapshot.Segment.Bits.{set_bits, checkbits, clearbits_right}
use frama_c_snapshot.Segment.Static.{sub_word, Query, base, offset, length}

pub record Heap : Type 0 where
  pub heap_start : ℕ
  pub heap_end : ℕ
  pub heap_mspace_least : ℕ
  pub shadow : Bytes
  pub init_shadow : Bytes
  pub heap_allocation_size : ℕ
  pub heap_allocated_blocks : ℕ

abbrev pub heap_segment : ℕ
heap_segment = 32

-- `ALIGN_LEFT(_n, _m)`
abbrev pub align_left : ℕ → ℕ → ℕ
align_left n m = n - n % m

-- `ALIGN_RIGHT(_n, _m)`
abbrev pub align_right : ℕ → ℕ → ℕ
align_right n m = n + (if n % m == 0 then 0 else m - n % m)

abbrev pub max_allocated : ℕ
max_allocated = align_left one64 heap_segment

unfoldable pub alloc_size : ℕ → ℕ
alloc_size s = if ltb s max_allocated then align_right s heap_segment else 0

-- the place of an address in the init shadow
abbrev pub init_index : ℕ → Heap → ℕ
init_index addr h = (addr - h.heap_start) / 8

-- `update_heap_allocation(long size)` of e_acsl_leak.h, on the word that stands for `size`
unfoldable pub add_allocation : ℕ → Heap → Heap
add_allocation size h = record h {
  heap_allocation_size = (h.heap_allocation_size + size) % pow2 64;
  heap_allocated_blocks =
      if size == 0
      then h.heap_allocated_blocks
      else if ltb size (pow2 63)
      then (h.heap_allocated_blocks + 1) % pow2 64
      else sub_word h.heap_allocated_blocks 1;
}

-- The loop of `set_heap_segment` over the segments, from the segment `i`; `set_heap_segment` runs it
-- only where `offsets_fit` says that `i*HEAP_SEGMENT`, an `int`, does not overflow.
unfoldable pub set_segments : ℕ → ℕ → ℕ → Bytes → Bytes
unfolding store
set_segments zero ptr i m = m
set_segments (suc n) ptr i m = set_segments n ptr (i + 1) (store 8 (ptr + i * heap_segment) ptr m)

-- whether the last `i*HEAP_SEGMENT` of the loop is an `int`
abbrev pub offsets_fit : ℕ → Bool
offsets_fit segments = ltb ((segments - 1) * heap_segment) (pow2 31)

-- `set_heap_segment`. The overflow of the loop's `int` offset, behind 2^26 segments, is a fault.
unfoldable pub set_heap_segment : ℕ → ℕ → ℕ → Bool → ℕ → Heap → Run Heap
unfolding set_segments add_allocation store fill
set_heap_segment ptr size room init least h =
    vassert (h.heap_mspace_least == least)
    >> (vassert (ltb ((ptr + room) % pow2 64) h.heap_end)
        >> (let h' = add_allocation size h in
            if offsets_fit (room / heap_segment)
            then ok (record h' {
              shadow = set_segments (room / heap_segment) ptr 0 (store 8 (ptr + 8) size h.shadow);
              init_shadow =
                  if init
                  then fill (init_index ptr h) 255 (room / 8) h.init_shadow
                  else h.init_shadow;
            })
            else fault))

unfoldable pub malloc : ℕ → ℕ → ℕ → Heap → Run (ℕ × Heap)
unfolding set_heap_segment alloc_size
malloc size res least h =
    if alloc_size size == 0
    then ok (0, h)
    else if res == 0
    then ok (0, h)
    else set_heap_segment res size (alloc_size size) false least h >>= λ h'. ok (res, h')

-- the size that `calloc` allocates
unfoldable pub calloc_size : ℕ → ℕ → ℕ
calloc_size nmemb size =
    if size == 0 then 0 else if ltb (one64 / size) nmemb then 0 else nmemb * size

unfoldable pub calloc : ℕ → ℕ → ℕ → ℕ → Heap → Run (ℕ × Heap)
unfolding set_heap_segment alloc_size calloc_size
calloc nmemb size res least h =
    let total = calloc_size nmemb size in
    if total == 0
    then ok (0, h)
    else if res == 0
    then ok (0, h)
    else set_heap_segment res total (alloc_size total) true least h >>= λ h'. ok (res, h')

unfoldable pub unset_heap_segment : ℕ → Bool → Heap → Heap
unfolding alloc_size load fill
unset_heap_segment ptr init h =
    let len = load 8 (ptr + 8) h.shadow in
    let room = alloc_size len in
    record h {
      shadow = fill ptr 0 room h.shadow;
      heap_allocation_size = sub_word h.heap_allocation_size len;
      init_shadow =
          if init then fill (init_index ptr h) 0 (room / 8) h.init_shadow else h.init_shadow;
    }

-- `IS_ON_HEAP(_addr)`
abbrev pub is_on_heap : ℕ → Heap → Bool
is_on_heap addr h = leb h.heap_start addr && leb addr h.heap_end

-- the word at `ALIGNED_HEAP_SHADOW(addr)`
unfoldable pub aligned_shadow : ℕ → Heap → ℕ
unfolding load
aligned_shadow addr h = load 8 (align_left addr heap_segment) h.shadow

unfoldable pub freeable : ℕ → Heap → Bool
unfolding aligned_shadow
freeable ptr h =
    if is_on_heap ptr h
    then (if aligned_shadow ptr h == 0 then false else aligned_shadow ptr h == ptr)
    else false

-- `free`, in builds that accept NULL
unfoldable pub free : ℕ → Heap → Run Heap
unfolding freeable unset_heap_segment
free ptr h =
    if ptr == 0 then ok h else if freeable ptr h then ok (unset_heap_segment ptr true h) else abort

-- `heap_info`
unfoldable pub heap_info : ℕ → Query → Heap → ℕ
unfolding load aligned_shadow sub_word
heap_info addr type h = elim type [
  | base ↦ aligned_shadow addr h
  | length ↦ load 8 (aligned_shadow addr h + 8) h.shadow
  | offset ↦ sub_word addr (aligned_shadow addr h)
]

unfoldable pub heap_allocated : ℕ → ℕ → ℕ → Heap → Bool
unfolding load aligned_shadow sub_word
heap_allocated addr size base_ptr h =
    let start = aligned_shadow addr h in
    if start == 0
    then false
    else aligned_shadow base_ptr h == start
      && leb ((sub_word addr start + size) % pow2 64) (load 8 (start + 8) h.shadow)

-- `setbits64_skip(_bits, _number, _skip)`, on a number of 8 bits
unfoldable pub set_bits_skip : ℕ → ℕ → ℕ → ℕ
set_bits_skip bits number skip = bit_or number (low_ones bits * pow2 skip) % 256

-- `initialize_heap_region`
unfoldable pub initialize_heap_region : ℕ → ℕ → Heap → Heap
unfolding set_bits set_bits_skip
initialize_heap_region addr len h =
    let place = init_index addr h in
    let skip = (addr - h.heap_start) % 8 in
    let set = min len (8 - skip) in
    let first = update h.init_shadow place (set_bits_skip set (h.init_shadow place) skip) in
    if skip == 0
    then (if len == 0 then h else record h { init_shadow = set_bits len place h.init_shadow })
    else record h {
      init_shadow = if len - set == 0 then first else set_bits (len - set) (place + 1) first;
    }

-- `heap_initialized`
unfoldable pub heap_initialized : ℕ → ℕ → Heap → Bool
unfolding checkbits set_bits_skip
heap_initialized addr len h =
    let place = init_index addr h in
    let skip = (addr - h.heap_start) % 8 in
    let set = min len (8 - skip) in
    if skip == 0
    then (if len == 0 then true else checkbits len place h.init_shadow)
    else if h.init_shadow place == set_bits_skip set 0 skip
    then (if len - set == 0 then true else checkbits (len - set) place h.init_shadow)
    else false

-- What `realloc` does to the shadows, once the public allocator has returned `res`.
unfoldable pub move_heap_segment : ℕ → ℕ → ℕ → ℕ → Heap → Run Heap
unfolding heap_info alloc_size unset_heap_segment set_heap_segment clearbits_right fill
move_heap_segment ptr size res least h =
    let old_size = heap_info ptr length h in
    let room = alloc_size size in
    let old_room = alloc_size old_size in
    set_heap_segment res size room false least (unset_heap_segment ptr false h) >>= λ h'.
    let old = init_index ptr h in
    let new = init_index res h in
    let cleared =
      if ltb size old_size
      then clearbits_right (old_room - size) (old + old_room / 8) h'.init_shadow
      else h'.init_shadow in
    let copy_size = if ltb size old_size then room else old_room in
    ok (record h' {
      init_shadow =
          if res == ptr then cleared else fill old 0 copy_size (copy copy_size old new cleared);
    })

unfoldable pub realloc : ℕ → ℕ → ℕ → ℕ → Heap → Run (ℕ × Heap)
unfolding malloc free freeable move_heap_segment
realloc ptr size res least h =
    if ptr == 0
    then malloc size res least h
    else if size == 0
    then (free ptr h >>= λ h'. ok (0, h'))
    else if freeable ptr h
    then (if res == 0
        then ok (0, h)
        else (move_heap_segment ptr size res least h >>= λ h'. ok (res, h')))
    else abort

unfoldable pub aligned_alloc : ℕ → ℕ → ℕ → ℕ → Heap → Run (ℕ × Heap)
unfolding powof2 set_heap_segment alloc_size
aligned_alloc alignment size res least h =
    if size == 0 || alignment == 0
    then ok (0, h)
    else powof2 alignment >>= λ power.
        if not power || not (size % alignment == 0)
        then ok (0, h)
        else if res == 0
        then ok (0, h)
        else set_heap_segment res size (alloc_size size) false least h >>= λ h'. ok (res, h')

-- `shadow_copy`, with the block that `calloc` or `malloc` gets; the copy of the bytes is left out
unfoldable pub shadow_copy : ℕ → Bool → ℕ → ℕ → Heap → Run (ℕ × Heap)
unfolding calloc malloc add_allocation sub_word
shadow_copy size init res least h =
    (if init then calloc 1 size res least h else malloc size res least h) >>= λ r.
    vassert (not (r.0 == 0)) >> ok (r.0, add_allocation (sub_word 0 size) (r.1))
