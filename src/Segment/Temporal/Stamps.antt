-- ===== src/Segment/Temporal/Stamps.antt =====
-- The timestamps that `malloc` gives to blocks of the heap, and the referents that pointers carry.
use frama_c_snapshot.Prelude.{
  ℕ, ◌+◌, ◌*◌, ◌/◌, ◌%◌, ◌<◌, ◌≤◌, ◌≡◌, ◌⊎◌, refl, sym, ap, ◌∙◌, arith, inl, inr, ◌==◌, true, false,
  leb, ltb, ◌&&◌,
}
use frama_c_snapshot.Prelude.Bits.{pow2}
use frama_c_snapshot.Prelude.Run.{ok, ◌>>=◌}
use frama_c_snapshot.Segment.Words.{
  Bytes, store, load, fill, store-Outside, load_same, load-store_64, load-store_32, fill_outside,
}
use frama_c_snapshot.Segment.Heap
use frama_c_snapshot.Segment.Heap.Tracks.{
  IsTracked, set_segments_same, set_segments-load, aligned_shadow-IsTracked, freeable-IsTracked,
}
use frama_c_snapshot.Segment.Heap.Blocks.{IsPlace, alloc_size-segments}
use frama_c_snapshot.Segment.Mmodel.{Segments, on_heap, on_static, try_segment}
use frama_c_snapshot.Temporal.{new_temporal_timestamp, temporal_store_nblock}
use frama_c_snapshot.Segment.Temporal.{
  Temporal, heap_of, with_heap, set_heap_segment, new_block, malloc, unset_heap_segment, free,
  heap_origin_timestamp, origin_timestamp, referent_timestamp, store_temporal_referent,
  segment_referents,
}

-- the words of a new block
abbrev stamped : ℕ → ℕ → ℕ → Bytes → Bytes
stamped size res timestamp m =
    Heap.set_segments ((size + 31) / 32) res 0
      (store 8 (res + 16) timestamp (store 8 (res + 8) size m))

-- A block of the heap and its timestamp.
abbrev pub HasBlock : ℕ → ℕ → ℕ → Heap.Heap → Type 0
HasBlock res size timestamp h =
    IsTracked res size ((size + 31) / 32) h × (load 8 (res + 16) h.shadow ≡ timestamp)

abbrev pub after : ℕ → ℕ → Temporal → Temporal
after size res t =
    let timestamp = new_temporal_timestamp t.temporal_timestamp in
    with_heap
      (record (Heap.add_allocation size (heap_of t)) {
        shadow = stamped size res timestamp (heap_of t).shadow;
      })
      (record t { temporal_timestamp = timestamp })

pub malloc_lem :
    (size res least : ℕ) (t : Temporal)
    → IsPlace size res least (heap_of t)
    → malloc size res least t ≡ ok (res, after size res t)
unfolding malloc new_block set_heap_segment Heap.add_allocation
malloc_lem size res least t (pos, small, nonnull, aligned, lo, hi, top, same) =
    let h = heap_of t in
    let room = alloc_size-segments size pos (omega arith) in
    let some_room : ((size + 31) / 32 * 32 == 0) ≡ false = ground arith in
    let nonzero : (res == 0) ≡ false = ground arith in
    let least_same : (h.heap_mspace_least == least) ≡ true = ground arith in
    let wrap : (res + (size + 31) / 32 * 32) % pow2 64 ≡ res + (size + 31) / 32 * 32 =
      omega arith in
    let below : ltb (res + (size + 31) / 32 * 32) h.heap_end ≡ true = ground arith in
    let segments : (size + 31) / 32 * 32 / 32 ≡ (size + 31) / 32 = omega arith in
    let fits : Heap.offsets_fit ((size + 31) / 32) ≡ true = ground arith in
    rw (room, some_room, nonzero, least_same, wrap, below, segments, fits) refl

pub stamped-HasBlock :
    (size res timestamp : ℕ) (t : Temporal)
    → res < pow2 64
    → size < pow2 64
    → new_temporal_timestamp t.temporal_timestamp ≡ timestamp
    → HasBlock res size timestamp (heap_of (after size res t))
stamped-HasBlock size res timestamp t p q e =
    let n = (size + 31) / 32 in
    let ts = new_temporal_timestamp t.temporal_timestamp in
    let first = store 8 (res + 8) size (heap_of t).shadow in
    let words = store 8 (res + 16) ts first in
    (
      (
        (λ j lt.
            let z : 0 + j ≡ j = omega arith in rw z at (set_segments-load n res 0 j words lt p)),
        load_same 8 (res + 8) (Heap.set_segments n res 0 words) first (λ k lt.
              set_segments_same n res 0 (res + 8 + k) words (λ l u v. omega arith)
              ∙ store-Outside 8 (res + 16) ts (res + 8 + k) first (omega arith))
            ∙ load-store_64 (res + 8) size (heap_of t).shadow q,
      ),
      load_same 8 (res + 16) (Heap.set_segments n res 0 words) words
            (λ k lt. set_segments_same n res 0 (res + 16 + k) words (λ l u v. omega arith))
          ∙ load-store_64 (res + 16) ts first (omega arith)
          ∙ e,
    )

-- the place of the pointer `lhs`: a static segment, or the heap outside of a block
abbrev pub IsFar : ℕ → ℕ → ℕ → Segments → Type 0
IsFar lhs res size m =
    (try_segment lhs m ≡ on_static)
    ⊎ (try_segment lhs m ≡ on_heap) × ((lhs + 4 ≤ res) ⊎ (res + (size + 31) / 32 * 32 ≤ lhs))

try_segment-IsPlace :
    (res size least k : ℕ) (t : Temporal)
    → IsPlace size res least (heap_of t)
    → k < (size + 31) / 32 * 32
    → try_segment (res + k) t.segments ≡ on_heap
unfolding try_segment
try_segment-IsPlace res size least k t (pos, small, nonnull, aligned, lo, hi, top, same) lt =
    let h = heap_of t in
    let here : (leb h.heap_start (res + k) && leb (res + k) h.heap_end) ≡ true = ground arith in
    rw (try_segment, here) refl

heap_origin_timestamp-HasBlock :
    (res size least timestamp k : ℕ) (t : Temporal)
    → IsPlace size res least (heap_of t)
    → HasBlock res size timestamp (heap_of t)
    → timestamp < pow2 32
    → k < (size + 31) / 32 * 32
    → heap_origin_timestamp (res + k) t ≡ ok timestamp
unfolding heap_origin_timestamp
heap_origin_timestamp-HasBlock res size least timestamp k t place (tracked, e) word lt =
    let (pos, small, nonnull, aligned, lo, hi, top, same) = place in
    let h = heap_of t in
    let there : (leb h.heap_start res && leb res h.heap_end) ≡ true = ground arith in
    let start = aligned_shadow-IsTracked res size ((size + 31) / 32) k h tracked aligned lt in
    let short : timestamp % pow2 32 ≡ timestamp = omega arith in
    rw (heap_origin_timestamp, start, there, e, short) refl

pub origin_timestamp-HasBlock :
    (res size least timestamp k : ℕ) (t : Temporal)
    → IsPlace size res least (heap_of t)
    → HasBlock res size timestamp (heap_of t)
    → timestamp < pow2 32
    → k < (size + 31) / 32 * 32
    → origin_timestamp (res + k) t ≡ ok timestamp
unfolding origin_timestamp
origin_timestamp-HasBlock res size least timestamp k t place block word lt =
    rw (origin_timestamp, try_segment-IsPlace res size least k t place lt)
      (heap_origin_timestamp-HasBlock res size least timestamp k t place block word lt)

pub store_nblock-referent :
    (lhs rhs timestamp res size : ℕ) (t : Temporal)
    → origin_timestamp rhs t ≡ ok timestamp
    → timestamp < pow2 32
    → IsFar lhs res size t.segments
    → (t' : Temporal) × (temporal_store_nblock segment_referents lhs rhs t ≡ ok t')
      × (referent_timestamp lhs t' ≡ ok timestamp)
      × (t'.segments ≡ t.segments)
      × (t'.temporal_timestamp ≡ t.temporal_timestamp)
unfolding temporal_store_nblock store_temporal_referent referent_timestamp
store_nblock-referent lhs rhs timestamp res size t e word (inl static) = (
  record t { static_secondary = store 4 lhs timestamp t.static_secondary },
  rw (e, ◌>>=◌, store_temporal_referent, static) refl,
  rw (referent_timestamp, static) (ap ok (load-store_32 lhs timestamp t.static_secondary word)),
  refl,
  refl,
)
store_nblock-referent lhs rhs timestamp res size t e word (inr (heap, far)) = (
  record t { heap_referents = store 4 lhs timestamp t.heap_referents },
  rw (e, ◌>>=◌, store_temporal_referent, heap) refl,
  rw (referent_timestamp, heap) (ap ok (load-store_32 lhs timestamp t.heap_referents word)),
  refl,
  refl,
)

pub referent-on_heap :
    (lhs : ℕ) (t : Temporal)
    → try_segment lhs t.segments ≡ on_heap
    → referent_timestamp lhs t ≡ ok (load 4 lhs t.heap_referents)
unfolding referent_timestamp
referent-on_heap lhs t e = rw (referent_timestamp, e) refl

pub referent-on_static :
    (lhs : ℕ) (t : Temporal)
    → try_segment lhs t.segments ≡ on_static
    → referent_timestamp lhs t ≡ ok (load 4 lhs t.static_secondary)
unfolding referent_timestamp
referent-on_static lhs t e = rw (referent_timestamp, e) refl

pub load-fill :
    (lhs res room : ℕ) (m : Bytes)
    → (lhs + 4 ≤ res) ⊎ (res + room ≤ lhs)
    → load 4 lhs (fill res 0 room m) ≡ load 4 lhs m
load-fill lhs res room m far =
    load_same 4 lhs (fill res 0 room m) m
      (λ i lt. fill_outside res 0 room (lhs + i) m (ground arith))

-- the heap has the same bounds
try_segment-unset :
    (res lhs : ℕ) (t : Temporal)
    → try_segment lhs (unset_heap_segment res true t).segments ≡ try_segment lhs t.segments
unfolding try_segment unset_heap_segment Heap.unset_heap_segment
try_segment-unset res lhs t = refl

referent-unset :
    (res size lhs : ℕ) (t : Temporal)
    → Heap.alloc_size (load 8 (res + 8) (heap_of t).shadow) ≡ (size + 31) / 32 * 32
    → IsFar lhs res size t.segments
    → referent_timestamp lhs (unset_heap_segment res true t) ≡ referent_timestamp lhs t
unfolding unset_heap_segment
referent-unset res size lhs t room (inl static) =
    referent-on_static lhs (unset_heap_segment res true t) (try_segment-unset res lhs t ∙ static)
    ∙ sym (referent-on_static lhs t static)
referent-unset res size lhs t room (inr (heap, far)) =
    referent-on_heap lhs (unset_heap_segment res true t) (try_segment-unset res lhs t ∙ heap)
    ∙ ap ok (
        ap (λ n. load 4 lhs (fill res 0 n t.heap_referents)) room
        ∙ load-fill lhs res ((size + 31) / 32 * 32) t.heap_referents far)
    ∙ sym (referent-on_heap lhs t heap)

-- `free` of the block, and what it leaves of a pointer elsewhere
pub free-HasBlock :
    (res size least timestamp lhs : ℕ) (t : Temporal)
    → IsPlace size res least (heap_of t)
    → HasBlock res size timestamp (heap_of t)
    → IsFar lhs res size t.segments
    → (free res t ≡ ok (unset_heap_segment res true t))
      × (referent_timestamp lhs (unset_heap_segment res true t) ≡ referent_timestamp lhs t)
unfolding free
free-HasBlock res size least timestamp lhs t place (tracked, e) far =
    let (pos, small, nonnull, aligned, lo, hi, top, same) = place in
    let h = heap_of t in
    let z : res + 0 ≡ res = omega arith in
    let can_free = rw z at (
      (freeable-IsTracked res size ((size + 31) / 32) 0 h tracked aligned nonnull (omega arith) lo
          (omega arith)).1
        refl) in
    let nonzero : (res == 0) ≡ false = ground arith in
    (
      rw (free, nonzero, can_free) refl,
      referent-unset res size lhs t
          (ap Heap.alloc_size tracked.1 ∙ alloc_size-segments size pos (omega arith)) far,
    )
