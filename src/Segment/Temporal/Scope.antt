-- ===== src/Segment/Temporal/Scope.antt =====
-- The temporal checks on the stack: a pointer to a variable is valid while the variable lives, and
-- not for another variable at the same place.
use frama_c_snapshot.Prelude.{
  ℕ, ◌+◌, ◌<◌, ◌≤◌, ◌≡◌, ◌≢◌, ◌⊎◌, refl, sym, ap, ◌∙◌, arith, inl, inr, ◌==◌, true, false, leb, ltb,
  ◌&&◌, if◌then◌else◌,
}
use frama_c_snapshot.Prelude.Bits.{pow2}
use frama_c_snapshot.Prelude.Run.{ok, ◌>>=◌}
use frama_c_snapshot.Segment.Words.{Bytes, store, load, fill, load-store_32, fill_inside}
use frama_c_snapshot.Segment.Static
use frama_c_snapshot.Segment.Static.Blocks.{shadow_alloca-IsFresh, static_info-shadow_alloca}
use frama_c_snapshot.Segment.Layout.{is_on_global}
use frama_c_snapshot.Segment.Mmodel.{Segments, on_heap, on_static, try_segment}
use frama_c_snapshot.Temporal.{
  invalid_temporal_timestamp, global_temporal_timestamp, new_temporal_timestamp,
  temporal_store_nblock, temporal_valid,
}
use frama_c_snapshot.Segment.Temporal.Stamps.{referent-on_heap, referent-on_static, load-fill}
use frama_c_snapshot.Segment.Temporal.Reuse.{temporal_valid-same, temporal_valid-other}
use frama_c_snapshot.Segment.Temporal.{
  Temporal, shadow_alloca, shadow_freea, heap_origin_timestamp, static_origin_timestamp,
  origin_timestamp, referent_timestamp, store_temporal_referent, segment_referents,
}

-- A place for a variable: its bytes stand on the stack or in thread-local storage.
abbrev pub IsLocal : ℕ → ℕ → Segments → Type 0
IsLocal ptr size m =
    (0 < size)
    × (size < 0x8000_0000)
    × (ptr + size ≤ pow2 64)
    × ((k : ℕ)
        → k < size
        → (try_segment (ptr + k) m ≡ on_static) × (is_on_global (ptr + k) m.layout ≡ false))

-- the place of the pointer `lhs`: the heap, or a static segment outside of a block
abbrev pub IsApart : ℕ → ℕ → ℕ → Segments → Type 0
IsApart lhs ptr size m =
    (try_segment lhs m ≡ on_heap)
    ⊎ (try_segment lhs m ≡ on_static) × ((lhs + 4 ≤ ptr) ⊎ (ptr + size ≤ lhs))

-- the memory with a new variable
abbrev grown : ℕ → ℕ → Temporal → Temporal
grown ptr size t =
    let timestamp = new_temporal_timestamp t.temporal_timestamp in
    record t {
      segments = record t.segments { statics = Static.shadow_alloca ptr size t.segments.statics };
      static_primary = store 4 ptr timestamp t.static_primary;
      temporal_timestamp = timestamp;
    }

-- the memory with other referents
abbrev pointed : Bytes → Bytes → Temporal → Temporal
pointed m m' t = record t { static_secondary = m; heap_referents = m' }

shadow_alloca_lem :
    (ptr size : ℕ) (t : Temporal)
    → IsLocal ptr size t.segments
    → shadow_alloca ptr size t ≡ grown ptr size t
unfolding shadow_alloca
shadow_alloca_lem ptr size t (pos, small, top, place) =
    let z : ptr + 0 ≡ ptr = omega arith in let off = rw z at ((place 0 pos).1) in rw off refl

origin-on_static :
    (addr : ℕ) (t : Temporal)
    → try_segment addr t.segments ≡ on_static
    → origin_timestamp addr t ≡ ok (static_origin_timestamp addr t)
unfolding origin_timestamp
origin-on_static addr t e = rw (origin_timestamp, e) refl

static_origin_timestamp_lem :
    (addr base : ℕ) (t : Temporal)
    → (t.segments.statics.primary addr == 0) ≡ false
    → is_on_global addr t.segments.layout ≡ false
    → Static.static_info addr Static.base t.segments.statics ≡ base
    → static_origin_timestamp addr t ≡ load 4 base t.static_primary
unfolding static_origin_timestamp
static_origin_timestamp_lem addr base t nonzero off e =
    let word = load 4 (Static.static_info addr Static.base t.segments.statics) t.static_primary in
    ap
      (λ absent.
        if absent
        then invalid_temporal_timestamp
        else if is_on_global addr t.segments.layout
        then global_temporal_timestamp
        else word)
      nonzero
    ∙ ap (λ global. if global then global_temporal_timestamp else word) off
    ∙ ap (λ b. load 4 b t.static_primary) e

origin-grown :
    (ptr size k : ℕ) (t : Temporal)
    → IsLocal ptr size t.segments
    → k < size
    → origin_timestamp (ptr + k) (grown ptr size t)
      ≡ ok (new_temporal_timestamp t.temporal_timestamp)
unfolding try_segment
origin-grown ptr size k t (pos, small, top, place) lt =
    let s = t.segments.statics in
    let ts = new_temporal_timestamp t.temporal_timestamp in
    let nonzero = (shadow_alloca-IsFresh s ptr size k small lt).0.0 in
    let base = (static_info-shadow_alloca s ptr size k small top lt).0 in
    let off = (place k lt).1 in
    let e =
      static_origin_timestamp_lem (ptr + k) ptr (grown ptr size t) nonzero off base
      ∙ load-store_32 ptr ts t.static_primary (omega arith) in
    origin-on_static (ptr + k) (grown ptr size t) ((place k lt).0) ∙ ap ok e

-- Storing the address of a byte of a block at `lhs` changes nothing but the referents.
store_nblock-pointed :
    (lhs rhs timestamp ptr size : ℕ) (t : Temporal)
    → origin_timestamp rhs t ≡ ok timestamp
    → timestamp < pow2 32
    → IsApart lhs ptr size t.segments
    → (m : Bytes) × (m' : Bytes) × (temporal_store_nblock segment_referents lhs rhs t
        ≡ ok (pointed m m' t))
      × (referent_timestamp lhs (pointed m m' t) ≡ ok timestamp)
unfolding temporal_store_nblock store_temporal_referent try_segment
store_nblock-pointed lhs rhs timestamp ptr size t e small (inl heap) =
    let m' = store 4 lhs timestamp t.heap_referents in
    (
      t.static_secondary,
      m',
      rw (e, ◌>>=◌, store_temporal_referent, heap) refl,
      referent-on_heap lhs (pointed t.static_secondary m' t) heap
          ∙ ap ok (load-store_32 lhs timestamp t.heap_referents small),
    )
store_nblock-pointed lhs rhs timestamp ptr size t e small (inr (static, apart)) =
    let m = store 4 lhs timestamp t.static_secondary in
    (
      m,
      t.heap_referents,
      rw (e, ◌>>=◌, store_temporal_referent, static) refl,
      referent-on_static lhs (pointed m t.heap_referents t) static
          ∙ ap ok (load-store_32 lhs timestamp t.static_secondary small),
    )

origin-pointed :
    (addr : ℕ) (m m' : Bytes) (t : Temporal)
    → origin_timestamp addr (pointed m m' t) ≡ origin_timestamp addr t
unfolding origin_timestamp heap_origin_timestamp static_origin_timestamp try_segment
origin-pointed addr m m' t = refl

referent-grown :
    (lhs ptr size : ℕ) (t : Temporal)
    → referent_timestamp lhs (grown ptr size t) ≡ referent_timestamp lhs t
unfolding referent_timestamp try_segment
referent-grown lhs ptr size t = refl

-- the end of the scope of a variable of `size` bytes
referent-shadow_freea :
    (lhs ptr size : ℕ) (t : Temporal)
    → Static.static_info ptr Static.length t.segments.statics ≡ size
    → IsApart lhs ptr size t.segments
    → referent_timestamp lhs (shadow_freea ptr t) ≡ referent_timestamp lhs t
unfolding shadow_freea try_segment
referent-shadow_freea lhs ptr size t len (inl heap) =
    referent-on_heap lhs (shadow_freea ptr t) heap ∙ sym (referent-on_heap lhs t heap)
referent-shadow_freea lhs ptr size t len (inr (static, apart)) =
    referent-on_static lhs (shadow_freea ptr t) static
    ∙ ap ok (
        ap (λ n. load 4 lhs (fill ptr 0 n t.static_secondary)) len
        ∙ load-fill lhs ptr size t.static_secondary apart)
    ∙ sym (referent-on_static lhs t static)

origin-shadow_freea :
    (ptr size k : ℕ) (t : Temporal)
    → Static.static_info ptr Static.length t.segments.statics ≡ size
    → IsLocal ptr size t.segments
    → k < size
    → origin_timestamp (ptr + k) (shadow_freea ptr t) ≡ ok 0
unfolding shadow_freea Static.shadow_freea static_origin_timestamp try_segment
origin-shadow_freea ptr size k t len (pos, small, top, place) lt =
    let inside : (leb ptr (ptr + k) && ltb (ptr + k) (ptr + size)) ≡ true = ground arith in
    let zero_code : (shadow_freea ptr t).segments.statics.primary (ptr + k) ≡ 0 =
      ap (λ n. fill ptr 0 n t.segments.statics.primary (ptr + k)) len
      ∙ fill_inside ptr 0 size (ptr + k) t.segments.statics.primary inside in
    origin-on_static (ptr + k) (shadow_freea ptr t) ((place k lt).0) ∙ ap ok (rw zero_code refl)

-- A variable of the stack or of thread-local storage comes into scope and a pointer to one of its
-- bytes is stored at `lhs`, outside of it; later its scope ends, and another variable gets its
-- place. Until the counter of timestamps overflows, `temporal_valid` holds of the stored pointer and
-- each byte of the first variable while it is in scope, and no longer after the end of its scope,
-- neither before nor after another variable stands at its place. All of the calls return.
pub temporal_valid-scope :
    (size size' ptr lhs j k k' : ℕ) (t : Temporal)
    → IsLocal ptr size t.segments
    → IsLocal ptr size' t.segments
    → t.temporal_timestamp + 2 < pow2 32
    → IsApart lhs ptr size t.segments
    → 0 < lhs
    → j < size
    → k < size
    → k' < size'
    → ptr + k ≢ lhs
    → ptr + k' ≢ lhs
    → (t2 : Temporal) × (temporal_store_nblock segment_referents lhs
          (ptr + j)
          (shadow_alloca ptr size t)
        ≡ ok t2)
      × (temporal_valid segment_referents (ptr + k) lhs t2 ≡ ok true)
      × (temporal_valid segment_referents (ptr + k) lhs (shadow_freea ptr t2) ≡ ok false)
      × (temporal_valid segment_referents
            (ptr + k')
            lhs
            (shadow_alloca ptr size' (shadow_freea ptr t2))
          ≡ ok false)
unfolding shadow_freea try_segment
temporal_valid-scope size size' ptr lhs j k k' t place place' clock apart pos lt_j lt_k lt_k' ne
      ne' =
    let ts = t.temporal_timestamp + 1 in
    let (some, small, top, _) = place in
    let t1 = grown ptr size t in
    let first : new_temporal_timestamp t.temporal_timestamp ≡ ts = omega arith in
    let (m, m', stored, r2) =
      store_nblock-pointed lhs (ptr + j) ts ptr size t1
        (origin-grown ptr size j t place lt_j ∙ ap ok first) (omega arith) apart in
    let t2 = pointed m m' t1 in
    let origin2 =
      origin-pointed (ptr + k) m m' t1 ∙ origin-grown ptr size k t place lt_k ∙ ap ok first in
    let z : ptr + 0 ≡ ptr = omega arith in
    let len =
      rw z at ((static_info-shadow_alloca t.segments.statics ptr size 0 small top some).2) in
    let t3 = shadow_freea ptr t2 in
    let r3 = referent-shadow_freea lhs ptr size t2 len apart ∙ r2 in
    let second : new_temporal_timestamp (new_temporal_timestamp t.temporal_timestamp) ≡ ts + 1 =
      omega arith in
    (
      t2,
      ap (temporal_store_nblock segment_referents lhs (ptr + j))
            (shadow_alloca_lem ptr size t place)
          ∙ stored,
      temporal_valid-same (ptr + k) lhs ts t2 r2 origin2,
      temporal_valid-other (ptr + k) lhs ts 0 t3 pos ne r3
          (origin-shadow_freea ptr size k t2 len place lt_k) (omega arith),
      ap (temporal_valid segment_referents (ptr + k') lhs) (shadow_alloca_lem ptr size' t3 place')
          ∙ temporal_valid-other (ptr + k') lhs ts (ts + 1) (grown ptr size' t3) pos ne'
              (referent-grown lhs ptr size' t3 ∙ r3)
              (origin-grown ptr size' k' t3 place' lt_k' ∙ ap ok second) (omega arith),
    )
