-- ===== src/Segment/Temporal/Reuse.antt =====
-- The temporal checks on the heap: a pointer to a block is valid while the block lives, and not for
-- another block at the same place.
use frama_c_snapshot.Prelude.{
  ℕ, ◌+◌, ◌*◌, ◌/◌, ◌%◌, ◌<◌, ◌≡◌, ◌≢◌, refl, sym, ap, ◌∙◌, arith, inl, inr, ◌==◌, true, false, not,
  ◌&&◌, Bool-cases,
}
use mathlib.Core.Path.{subst}
use frama_c_snapshot.Prelude.Bits.{pow2}
use frama_c_snapshot.Prelude.Run.{ok, ◌>>=◌}
use frama_c_snapshot.Segment.Heap
use frama_c_snapshot.Segment.Heap.Blocks.{IsPlace}
use frama_c_snapshot.Segment.Mmodel.{try_segment}
use frama_c_snapshot.Temporal.{temporal_store_nblock, temporal_valid}
use frama_c_snapshot.Segment.Temporal.Stamps.{
  HasBlock, after, malloc_lem, stamped-HasBlock, origin_timestamp-HasBlock, store_nblock-referent,
  free-HasBlock, IsFar,
}
use frama_c_snapshot.Segment.Temporal.{
  Temporal, heap_of, malloc, unset_heap_segment, free, origin_timestamp, referent_timestamp,
  segment_referents,
}

-- the place is one for a block after the other one is freed
unset-IsPlace :
    (res size least : ℕ) (t : Temporal)
    → IsPlace size res least (heap_of t)
    → IsPlace size res least (heap_of (unset_heap_segment res true t))
unfolding unset_heap_segment Heap.unset_heap_segment
unset-IsPlace res size least t place = place

after-IsPlace :
    (res size size' least : ℕ) (t : Temporal)
    → IsPlace size res least (heap_of t)
    → IsPlace size res least (heap_of (after size' res t))
unfolding Heap.add_allocation
after-IsPlace res size size' least t place = place

referent-after :
    (lhs res size : ℕ) (t : Temporal)
    → referent_timestamp lhs (after size res t) ≡ referent_timestamp lhs t
unfolding Heap.add_allocation referent_timestamp try_segment
referent-after lhs res size t = refl

after-IsFar :
    (lhs res size size' : ℕ) (t : Temporal)
    → IsFar lhs res size t.segments
    → IsFar lhs res size (after size' res t).segments
unfolding Heap.add_allocation try_segment
after-IsFar lhs res size size' t far = far

pub temporal_valid-same :
    (ptr lhs timestamp : ℕ) (t : Temporal)
    → referent_timestamp lhs t ≡ ok timestamp
    → origin_timestamp ptr t ≡ ok timestamp
    → temporal_valid segment_referents ptr lhs t ≡ ok true
unfolding temporal_valid
temporal_valid-same ptr lhs timestamp t r o =
    elim (Bool-cases (not (lhs == 0) && not (ptr == lhs))) [
      | inl e ↦
          let same : (timestamp == timestamp) ≡ true = ground arith in
          rw (temporal_valid, e, r, ◌>>=◌, o, same) refl
      | inr e ↦ rw (temporal_valid, e) refl
    ]

pub temporal_valid-other :
    (ptr lhs timestamp other : ℕ) (t : Temporal)
    → 0 < lhs
    → ptr ≢ lhs
    → referent_timestamp lhs t ≡ ok timestamp
    → origin_timestamp ptr t ≡ ok other
    → timestamp ≢ other
    → temporal_valid segment_referents ptr lhs t ≡ ok false
unfolding temporal_valid
temporal_valid-other ptr lhs timestamp other t pos apart r o ne =
    let e : (not (lhs == 0) && not (ptr == lhs)) ≡ true = ground arith in
    let differ : (timestamp == other) ≡ false = ground arith in
    rw (temporal_valid, e, r, ◌>>=◌, o, differ) refl

timestamp-unset :
    (res : ℕ) (t : Temporal)
    → (unset_heap_segment res true t).temporal_timestamp ≡ t.temporal_timestamp
unfolding unset_heap_segment
timestamp-unset res t = refl

-- A block of the heap, of at most 2^31 bytes, is allocated and a pointer to one of its bytes is stored
-- at `lhs`, outside of the block; later the block is freed, and another one, of at most 2^31 bytes, is allocated at its
-- place. Until the
-- counter of timestamps overflows, `temporal_valid` holds of the stored pointer and each byte of
-- the first block before, and of no byte of the second block, padding included, after. All of the
-- calls return.
pub temporal_valid-reuse :
    (size size' res least lhs j k k' : ℕ) (t : Temporal)
    → IsPlace size res least (heap_of t)
    → IsPlace size' res least (heap_of t)
    → t.temporal_timestamp + 2 < pow2 32
    → IsFar lhs res size t.segments
    → 0 < lhs
    → j < (size + 31) / 32 * 32
    → k < (size + 31) / 32 * 32
    → k' < (size' + 31) / 32 * 32
    → res + k' ≢ lhs
    → (t2 : Temporal) × (t4 : Temporal) × ((malloc size res least t >>= λ r.
          temporal_store_nblock segment_referents lhs (r.0 + j) (r.1))
        ≡ ok t2)
      × (temporal_valid segment_referents (res + k) lhs t2 ≡ ok true)
      × ((free res t2 >>= malloc size' res least) ≡ ok (res, t4))
      × (temporal_valid segment_referents (res + k') lhs t4 ≡ ok false)
temporal_valid-reuse size size' res least lhs j k k' t place place' clock far pos lt_j lt_k lt_k'
      ne =
    let t1 = after size res t in
    let ts = t.temporal_timestamp + 1 in
    let (_, small, _, _, _, hi, top, _) = place in
    let (_, small', _, _, _, hi', top', _) = place' in
    let block1 = stamped-HasBlock size res ts t (omega arith) (omega arith) (omega arith) in
    let place1 = after-IsPlace res size size least t place in
    let origin1 =
      origin_timestamp-HasBlock res size least ts j t1 place1 block1 (omega arith) lt_j in
    let far1 = after-IsFar lhs res size size t far in
    let (t2, stored, r2, seg, clock2) =
      store_nblock-referent lhs (res + j) ts res size t1 origin1 (omega arith) far1 in
    let block2 = subst (λ m. HasBlock res size ts m.dynamic) (sym seg) block1 in
    let place2 = subst (λ m. IsPlace size res least m.dynamic) (sym seg) place1 in
    let place2' =
      subst (λ m. IsPlace size' res least m.dynamic) (sym seg)
        (after-IsPlace res size' size least t place') in
    let far2 = subst (IsFar lhs res size) (sym seg) far1 in
    let origin2 =
      origin_timestamp-HasBlock res size least ts k t2 place2 block2 (omega arith) lt_k in
    let (freed, r3) = free-HasBlock res size least ts lhs t2 place2 block2 far2 in
    let t3 = unset_heap_segment res true t2 in
    let t4 = after size' res t3 in
    let place3 = unset-IsPlace res size' least t2 place2' in
    let clock3 : t3.temporal_timestamp ≡ (t.temporal_timestamp + 1) % pow2 32 =
      timestamp-unset res t2 ∙ clock2 in
    let block4 =
      stamped-HasBlock size' res (ts + 1) t3 (omega arith) (omega arith) (omega (arith, clock3)) in
    let place4 = after-IsPlace res size' size' least t3 place3 in
    let origin4 =
      origin_timestamp-HasBlock res size' least (ts + 1) k' t4 place4 block4 (omega arith) lt_k' in
    (
      t2,
      t4,
      ap (λ x. x >>= λ r. temporal_store_nblock segment_referents lhs (r.0 + j) (r.1))
            (malloc_lem size res least t place)
          ∙ stored,
      temporal_valid-same (res + k) lhs ts t2 r2 origin2,
      ap (λ x. x >>= malloc size' res least) freed ∙ malloc_lem size' res least t3 place3,
      temporal_valid-other (res + k') lhs ts (ts + 1) t4 pos ne
          (referent-after lhs res size' t3 ∙ r3 ∙ r2) origin4 (omega arith),
    )
