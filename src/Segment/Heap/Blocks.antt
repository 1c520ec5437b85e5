-- ===== src/Segment/Heap/Blocks.antt =====
-- The contracts of `malloc` and `free` of e_acsl_segment_tracking.h.
use frama_c_snapshot.Prelude.{
  ℕ, ◌+◌, ◌-◌, ◌*◌, ◌/◌, ◌%◌, ◌<◌, ◌≤◌, ◌≡◌, ◌↔◌, refl, sym, ◌∙◌, arith, inl, inr, ◌==◌, true,
  false, ◌&&◌, leb, ltb, Bool-cases, ==_iff,
}
use frama_c_snapshot.Prelude.Bits.{pow2}
use frama_c_snapshot.Prelude.Run.{ok, ◌>>=◌}
use frama_c_snapshot.Segment.Words.{Bytes, Outside, store, fill, fill_inside, fill_outside}
use frama_c_snapshot.Segment.Static.{sub_word, base, offset, length}
use frama_c_snapshot.Segment.Heap
use frama_c_snapshot.Segment.Heap.Tracks.{
  IsTracked, set_segments-IsTracked, set_segments-Outside, heap_info-IsTracked,
  heap_allocated-IsTracked, freeable-IsTracked,
}

-- `alloc_size` rounds up to whole segments, unless it returns 0.
pub alloc_size-segments :
    (size : ℕ) → 0 < size → size < Heap.max_allocated → Heap.alloc_size size ≡ (size + 31) / 32 * 32
unfolding Heap.alloc_size
alloc_size-segments size p q =
    let small : ltb size Heap.max_allocated ≡ true = ground arith in
    rw small (elim (Bool-cases (size % 32 == 0)) [
      | inl e ↦ rw e (let z = (==_iff (size % 32) 0).0 e in omega arith)
      | inr e ↦ rw e (let z : 0 < size % 32 = ground arith in omega arith)
    ])

-- What the theorems on a new block take of the public allocator and of the heap: an address in the
-- heap at a multiple of 32, behind which the block and its padding end below the end of the heap.
-- The block has at most 2^31 bytes, so that no offset in `set_heap_segment` overflows an `int`.
abbrev pub IsPlace : ℕ → ℕ → ℕ → Heap.Heap → Type 0
IsPlace size res least h =
    (0 < size)
    × (size ≤ pow2 31)
    × (0 < res)
    × (res % 32 ≡ 0)
    × (h.heap_start ≤ res)
    × (res + (size + 31) / 32 * 32 < h.heap_end)
    × (h.heap_end < pow2 64)
    × (h.heap_mspace_least ≡ least)

abbrev pub heap_after : ℕ → ℕ → Heap.Heap → Heap.Heap
heap_after size res h = record (Heap.add_allocation size h) {
  shadow = Heap.set_segments ((size + 31) / 32) res 0 (store 8 (res + 8) size h.shadow);
}

pub malloc_lem :
    (size res least : ℕ) (h : Heap.Heap)
    → IsPlace size res least h
    → Heap.malloc size res least h ≡ ok (res, heap_after size res h)
unfolding Heap.malloc Heap.set_heap_segment Heap.add_allocation
malloc_lem size res least h (pos, small, nonnull, aligned, lo, hi, top, same) =
    let room = alloc_size-segments size pos (omega arith) in
    let some_room : ((size + 31) / 32 * 32 == 0) ≡ false = ground arith in
    let nonzero : (res == 0) ≡ false = ground arith in
    let least_same : (h.heap_mspace_least == least) ≡ true = ground arith in
    let wrap : (res + (size + 31) / 32 * 32) % pow2 64 ≡ res + (size + 31) / 32 * 32 =
      omega arith in
    let below : ltb (res + (size + 31) / 32 * 32) h.heap_end ≡ true = ground arith in
    let segments : (size + 31) / 32 * 32 / 32 ≡ (size + 31) / 32 = omega arith in
    let fits : Heap.offsets_fit ((size + 31) / 32) ≡ true = ground arith in
    rw (room, some_room, nonzero, least_same, wrap, below, segments, fits) refl

pub heap_after-IsTracked :
    (size res : ℕ) (h : Heap.Heap)
    → res < pow2 64
    → size < pow2 64
    → IsTracked res size ((size + 31) / 32) (heap_after size res h)
heap_after-IsTracked size res h p q =
    set_segments-IsTracked ((size + 31) / 32) res size h.shadow p q

-- Where the public allocator returns a place for it, `malloc` of a size from 1 to 2^31 returns that
-- place, and for the addresses of the block, padding included, `heap_info` gives the base, the offset and
-- the length, `heap_allocated` holds exactly for the regions that end inside of the block and do
-- not wrap around, and `freeable` exactly for the base.
pub malloc-heap_info :
    (size res least k n j : ℕ) (h : Heap.Heap)
    → IsPlace size res least h
    → k < (size + 31) / 32 * 32
    → j < (size + 31) / 32 * 32
    → k + n < pow2 64
    → (h' : Heap.Heap) × (Heap.malloc size res least h ≡ ok (res, h'))
      × (Heap.heap_info (res + k) base h' ≡ res)
      × (Heap.heap_info (res + k) offset h' ≡ k)
      × (Heap.heap_info (res + k) length h' ≡ size)
      × ((Heap.heap_allocated (res + k) n (res + j) h' ≡ true) ↔ (k + n ≤ size))
      × ((Heap.freeable (res + k) h' ≡ true) ↔ (k ≡ 0))
unfolding Heap.add_allocation
malloc-heap_info size res least k n j h place p q room =
    let (pos, small, nonnull, aligned, lo, hi, top, same) = place in
    let h' = heap_after size res h in
    let t = heap_after-IsTracked size res h (omega arith) (omega arith) in
    let segments = (size + 31) / 32 in
    let (b, o, l) = heap_info-IsTracked res size segments k h' t aligned p (omega arith) in
    (
      h',
      malloc_lem size res least h place,
      b,
      o,
      l,
      heap_allocated-IsTracked res size segments k n j h' t aligned nonnull p q (omega arith) room,
      freeable-IsTracked res size segments k h' t aligned nonnull p lo (omega arith),
    )

-- Two heaps with the same shadow bytes and the same account of bytes.
abbrev pub IsSameHeap : Heap.Heap → Heap.Heap → Type 0
IsSameHeap h h' =
    ((x : ℕ) → h'.shadow x ≡ h.shadow x)
    × ((x : ℕ) → h'.init_shadow x ≡ h.init_shadow x)
    × (h'.heap_allocation_size ≡ h.heap_allocation_size)

-- the shadows of a block that is not allocated
abbrev pub IsUnused : ℕ → ℕ → Heap.Heap → Type 0
IsUnused ptr room h =
    ((k : ℕ) → k < room → h.shadow (ptr + k) ≡ 0)
    × ((k : ℕ) → k < room / 8 → h.init_shadow (Heap.init_index ptr h + k) ≡ 0)

fill_unused :
    (a n x : ℕ) (m m' : Bytes)
    → ((k : ℕ) → k < n → m (a + k) ≡ 0)
    → (Outside a n x → m' x ≡ m x)
    → fill a 0 n m' x ≡ m x
fill_unused a n x m m' zeros same = elim (Bool-cases (leb a x && ltb x (a + n))) [
  | inl i ↦
      let at : a + (x - a) ≡ x = ground arith in
      fill_inside a 0 n x m' i ∙ sym (rw at at (zeros (x - a) (ground arith)))
  | inr o ↦ fill_outside a 0 n x m' o ∙ same (ground arith)
]

account_back :
    (a size : ℕ) → a < pow2 64 → size < pow2 64 → sub_word ((a + size) % pow2 64) size ≡ a
unfolding sub_word
account_back a size p q = omega arith

-- For a size from 1 to 2^31, where the public allocator returns a place whose shadow is unused, `free`
-- of what `malloc` returned gives back the bytes of both shadows, at every address, and the number
-- of bytes that the heap accounts for.
pub free-malloc-IsSameHeap :
    (size res least : ℕ) (h : Heap.Heap)
    → IsPlace size res least h
    → IsUnused res ((size + 31) / 32 * 32) h
    → h.heap_allocation_size < pow2 64
    → (h' : Heap.Heap) × ((Heap.malloc size res least h >>= λ r. Heap.free (r.0) (r.1)) ≡ ok h')
      × IsSameHeap h h'
unfolding Heap.free Heap.unset_heap_segment Heap.add_allocation
free-malloc-IsSameHeap size res least h place (zeros, init_zeros) account =
    let (pos, small, nonnull, aligned, lo, hi, top, same) = place in
    let t = heap_after-IsTracked size res h (omega arith) (omega arith) in
    let e : res + 0 ≡ res = omega arith in
    let can_free = rw e at (
      (freeable-IsTracked res size ((size + 31) / 32) 0 (heap_after size res h) t aligned nonnull
          (omega arith) lo (omega arith)).1
        refl) in
    let nonzero : (res == 0) ≡ false = ground arith in
    let room = alloc_size-segments size pos (omega arith) in
    let h' = Heap.unset_heap_segment res true (heap_after size res h) in
    (
      h',
      rw (malloc_lem size res least h place, nonzero, can_free) refl,
      rw (t.1, room)
          (
            (λ x.
                fill_unused res ((size + 31) / 32 * 32) x h.shadow (heap_after size res h).shadow
                  zeros
                  (λ o.
                    set_segments-Outside ((size + 31) / 32) res size x h.shadow (omega arith) o)),
            (λ x.
                fill_unused (Heap.init_index res h) ((size + 31) / 32 * 32 / 8) x h.init_shadow
                  h.init_shadow init_zeros (λ o. refl)),
            account_back h.heap_allocation_size size account (omega arith),
          ),
    )
