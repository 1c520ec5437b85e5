-- ===== src/Segment/Temporal.antt =====
-- The shadow memory of the temporal checks, in builds with E_ACSL_TEMPORAL, from
-- segment_model/e_acsl_segment_tracking.h and e_acsl_segment_mmodel.c: the timestamp of a heap block
-- is the third word of its shadow, that of a block of the stack or of thread-local storage stands
-- in a primary temporal shadow; the referents of pointers stand in a temporal shadow of the heap,
-- and in a secondary one elsewhere.
pub mod Stamps
pub mod Reuse
pub mod Scope
pub mod Regions
pub mod Copies
pub mod Passing
mod Tests
use frama_c_snapshot.Prelude.{
  ℕ, ◌+◌, ◌-◌, ◌/◌, ◌%◌, Bool, true, false, not, ◌&&◌, ◌==◌, leb, ltb, if◌then◌else◌,
}
use frama_c_snapshot.Prelude.Bits.{pow2}
use frama_c_snapshot.Prelude.Run.{Run, ok, abort, fault, ◌>>=◌, ◌>>◌, vassert}
use frama_c_snapshot.Segment.Words.{Bytes, store, load, fill}
use frama_c_snapshot.Segment.Static
use frama_c_snapshot.Segment.Heap
use frama_c_snapshot.Segment.Layout.{is_on_global}
use frama_c_snapshot.Segment.Mmodel.{Segments, Segment, on_heap, on_static, elsewhere, try_segment}
use frama_c_snapshot.Temporal.{
  Referents, new_temporal_timestamp, invalid_temporal_timestamp, global_temporal_timestamp,
}

pub record Temporal : Type 0 where
  pub segments : Segments
  pub heap_referents : Bytes
  pub static_primary : Bytes
  pub static_secondary : Bytes
  pub temporal_timestamp : ℕ

abbrev pub heap_of : Temporal → Heap.Heap
heap_of t = t.segments.dynamic

abbrev pub with_heap : Heap.Heap → Temporal → Temporal
with_heap h t = record t { segments = record t.segments { dynamic = h } }

-- `set_heap_segment` with the timestamp of the block
unfoldable pub set_heap_segment : ℕ → ℕ → ℕ → Bool → ℕ → ℕ → Heap.Heap → Run Heap.Heap
unfolding Heap.set_segments Heap.add_allocation store fill
set_heap_segment ptr size room init least timestamp h =
    vassert (h.heap_mspace_least == least)
    >> (vassert (ltb ((ptr + room) % pow2 64) h.heap_end)
        >> (let h' = Heap.add_allocation size h in
            let words = store 8 (ptr + 16) timestamp (store 8 (ptr + 8) size h.shadow) in
            if Heap.offsets_fit (room / Heap.heap_segment)
            then ok (record h' {
              shadow = Heap.set_segments (room / Heap.heap_segment) ptr 0 words;
              init_shadow =
                  if init
                  then fill (Heap.init_index ptr h) 255 (room / 8) h.init_shadow
                  else h.init_shadow;
            })
            else fault))

-- a new block with the next timestamp
unfoldable pub new_block : ℕ → ℕ → Bool → ℕ → Temporal → Run (ℕ × Temporal)
unfolding set_heap_segment Heap.alloc_size
new_block ptr size init least t =
    let timestamp = new_temporal_timestamp t.temporal_timestamp in
    set_heap_segment ptr size (Heap.alloc_size size) init least timestamp (heap_of t) >>= λ h'.
    ok (ptr, with_heap h' (record t { temporal_timestamp = timestamp }))

unfoldable pub malloc : ℕ → ℕ → ℕ → Temporal → Run (ℕ × Temporal)
unfolding new_block Heap.alloc_size
malloc size res least t =
    if Heap.alloc_size size == 0
    then ok (0, t)
    else if res == 0
    then ok (0, t)
    else new_block res size false least t

unfoldable pub calloc : ℕ → ℕ → ℕ → ℕ → Temporal → Run (ℕ × Temporal)
unfolding new_block Heap.calloc_size
calloc nmemb size res least t =
    let total = Heap.calloc_size nmemb size in
    if total == 0
    then ok (0, t)
    else if res == 0
    then ok (0, t)
    else new_block res total true least t

unfoldable pub unset_heap_segment : ℕ → Bool → Temporal → Temporal
unfolding Heap.unset_heap_segment Heap.alloc_size load fill
unset_heap_segment ptr init t =
    let room = Heap.alloc_size (load 8 (ptr + 8) (heap_of t).shadow) in
    with_heap (Heap.unset_heap_segment ptr init (heap_of t))
      (record t { heap_referents = fill ptr 0 room t.heap_referents })

unfoldable pub free : ℕ → Temporal → Run Temporal
unfolding Heap.freeable unset_heap_segment
free ptr t =
    if ptr == 0
    then ok t
    else if Heap.freeable ptr (heap_of t)
    then ok (unset_heap_segment ptr true t)
    else abort

-- Globals have no timestamp of their own.
unfoldable pub shadow_alloca : ℕ → ℕ → Temporal → Temporal
unfolding Static.shadow_alloca store
shadow_alloca ptr size t =
    let timestamp = new_temporal_timestamp t.temporal_timestamp in
    let t' = record t {
      segments = record t.segments { statics = Static.shadow_alloca ptr size t.segments.statics };
    } in
    if is_on_global ptr t.segments.layout then t' else record t' {
      static_primary = store 4 ptr timestamp t.static_primary;
      temporal_timestamp = timestamp;
    }

unfoldable pub shadow_freea : ℕ → Temporal → Temporal
unfolding Static.shadow_freea Static.static_info fill
shadow_freea ptr t =
    let size = Static.static_info ptr Static.length t.segments.statics in
    record t {
      segments = record t.segments { statics = Static.shadow_freea ptr t.segments.statics };
      static_primary = fill ptr 0 size t.static_primary;
      static_secondary = fill ptr 0 size t.static_secondary;
    }

-- `heap_origin_timestamp`. The base of an address that is not allocated is 0, whose shadow lies
-- outside of the shadow of the heap.
unfoldable pub heap_origin_timestamp : ℕ → Temporal → Run ℕ
unfolding Heap.aligned_shadow load
heap_origin_timestamp addr t =
    let start = Heap.aligned_shadow addr (heap_of t) in
    if Heap.is_on_heap start (heap_of t)
    then ok (load 8 (start + 16) (heap_of t).shadow % pow2 32)
    else fault

unfoldable pub static_origin_timestamp : ℕ → Temporal → ℕ
unfolding Static.static_info load
static_origin_timestamp addr t =
    if t.segments.statics.primary addr == 0
    then invalid_temporal_timestamp
    else if is_on_global addr t.segments.layout
    then global_temporal_timestamp
    else load 4 (Static.static_info addr Static.base t.segments.statics) t.static_primary

unfoldable pub origin_timestamp : ℕ → Temporal → Run ℕ
unfolding try_segment heap_origin_timestamp static_origin_timestamp
origin_timestamp ptr t = elim (try_segment ptr t.segments) [
  | on_heap ↦ heap_origin_timestamp ptr t
  | on_static ↦ ok (static_origin_timestamp ptr t)
  | elsewhere ↦ ok invalid_temporal_timestamp
]

unfoldable pub referent_timestamp : ℕ → Temporal → Run ℕ
unfolding try_segment load
referent_timestamp ptr t = elim (try_segment ptr t.segments) [
  | on_heap ↦ ok (load 4 ptr t.heap_referents)
  | on_static ↦ ok (load 4 ptr t.static_secondary)
  | elsewhere ↦ abort
]

unfoldable pub store_temporal_referent : ℕ → ℕ → Temporal → Run Temporal
unfolding try_segment store
store_temporal_referent ptr ref t = elim (try_segment ptr t.segments) [
  | on_heap ↦ ok (record t { heap_referents = store 4 ptr ref t.heap_referents })
  | on_static ↦ ok (record t { static_secondary = store 4 ptr ref t.static_secondary })
  | elsewhere ↦ abort
]

-- The bytes of the shadow that `temporal_referent_shadow` returns a place in.
unfoldable pub temporal_referent_shadow : ℕ → Temporal → Run Bytes
unfolding try_segment
temporal_referent_shadow addr t = elim (try_segment addr t.segments) [
  | on_heap ↦ ok t.heap_referents
  | on_static ↦ ok t.static_secondary
  | elsewhere ↦ abort
]

unfoldable pub put_referent_shadow : ℕ → Bytes → Temporal → Run Temporal
unfolding try_segment
put_referent_shadow addr m t = elim (try_segment addr t.segments) [
  | on_heap ↦ ok (record t { heap_referents = m })
  | on_static ↦ ok (record t { static_secondary = m })
  | elsewhere ↦ abort
]

-- `memcpy` from one shadow to another, for regions that do not overlap
unfoldable pub copy_referents : ℕ → ℕ → ℕ → Temporal → Run Temporal
unfolding temporal_referent_shadow put_referent_shadow
copy_referents dest src size t = temporal_referent_shadow dest t >>= λ to.
    temporal_referent_shadow src t >>= λ from.
    put_referent_shadow dest
      (λ x. if leb dest x && ltb x (dest + size) then from (src + (x - dest)) else to x) t

unfoldable pub clear_referents : ℕ → ℕ → Temporal → Run Temporal
unfolding temporal_referent_shadow put_referent_shadow fill
clear_referents dest size t =
    temporal_referent_shadow dest t >>= λ to. put_referent_shadow dest (fill dest 0 size to) t

abbrev pub segment_referents : Referents Temporal
segment_referents = record {
  origin_timestamp = origin_timestamp;
  referent_timestamp = referent_timestamp;
  store_temporal_referent = store_temporal_referent;
  copy_referents = copy_referents;
  clear_referents = clear_referents;
}
