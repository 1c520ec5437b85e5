-- ===== src/Segment/Temporal/Passing.antt =====
-- How the referents of pointers pass, in shadow memory, from a caller to the function that it calls, and
-- back: the parameters and the result of e_acsl_temporal.h.
use frama_c_snapshot.Prelude.{
  ℕ, ◌+◌, ◌≤◌, ◌<◌, ◌≡◌, ◌≢◌, ◌⊎◌, refl, ap, ◌∙◌, true, false, ltb, ◌==◌, if◌then◌else◌, arith,
}
use frama_c_snapshot.Prelude.Bits.{pow2}
use frama_c_snapshot.Prelude.Run.{Run, ok, abort, ◌>>=◌}
use frama_c_snapshot.Segment.Words.{store, load-store_32}
use frama_c_snapshot.Segment.Mmodel.{Segments, Segment, on_heap, on_static, elsewhere, try_segment}
use frama_c_snapshot.Temporal.{
  TemporalParameter, block_n, referent_n, copied, Checked, max_parameters, pull, save_parameter,
  temporal_store_nblock, temporal_store_nreferent, temporal_save_nblock_parameter,
  temporal_save_nreferent_parameter, temporal_save_copy_parameter, temporal_pull_parameter,
  temporal_reset_parameters, temporal_save_return, temporal_pull_return,
}
use frama_c_snapshot.Segment.Temporal.{
  Temporal, origin_timestamp, referent_timestamp, store_temporal_referent, segment_referents,
}
use frama_c_snapshot.Segment.Temporal.Stamps.{referent-on_heap, referent-on_static}
use frama_c_snapshot.Segment.Temporal.Regions.{IsRegion}
use frama_c_snapshot.Segment.Temporal.Copies.{temporal_memcpy-referents}

-- a referent that is stored is read again
store_temporal_referent_lem :
    (c : Segment) (lhs timestamp : ℕ) (t : Temporal)
    → c ≢ elsewhere
    → try_segment lhs t.segments ≡ c
    → timestamp < pow2 32
    → (t' : Temporal) × (store_temporal_referent lhs timestamp t ≡ ok t')
      × (referent_timestamp lhs t' ≡ ok timestamp)
unfolding store_temporal_referent
store_temporal_referent_lem on_heap lhs timestamp t ne e word =
    let m = store 4 lhs timestamp t.heap_referents in
    (
      record t { heap_referents = m },
      rw (store_temporal_referent, e) refl,
      referent-on_heap lhs (record t { heap_referents = m }) e
          ∙ ap ok (load-store_32 lhs timestamp t.heap_referents word),
    )
store_temporal_referent_lem on_static lhs timestamp t ne e word =
    let m = store 4 lhs timestamp t.static_secondary in
    (
      record t { static_secondary = m },
      rw (store_temporal_referent, e) refl,
      referent-on_static lhs (record t { static_secondary = m }) e
          ∙ ap ok (load-store_32 lhs timestamp t.static_secondary word),
    )
store_temporal_referent_lem elsewhere lhs timestamp t ne e word = absurd (ne refl)

-- What the saves, in their order, and the pull of the first parameter leave: another one is saved
-- between, in any way.
abbrev pub Pulls :
    (Checked Temporal → Run (Checked Temporal))
    → TemporalParameter
    → (other ptr param size : ℕ) → Checked Temporal
    → (Temporal → Type 0)
    → Type 0
Pulls save q other ptr param size c P =
    (c' : Checked Temporal) × ((save c
        >>= save_parameter segment_referents q other
        >>= temporal_pull_parameter segment_referents ptr param size)
      ≡ ok c')
    × P c'.store

-- a parameter is pulled as it was saved
pull-save_parameter :
    (p q : TemporalParameter) (other ptr param size : ℕ) (c : Checked Temporal) (t : Temporal)
    (P : Temporal → Type 0)
    → param < max_parameters
    → other < max_parameters
    → param ≢ other
    → pull segment_referents ptr size p c.store ≡ ok t
    → P t
    → Pulls (save_parameter segment_referents p param) q other ptr param size c P
unfolding save_parameter temporal_pull_parameter
pull-save_parameter p q other ptr param size c t P lt lt' ne e h =
    let inside : ltb param max_parameters ≡ true = ground arith in
    let inside' : ltb other max_parameters ≡ true = ground arith in
    let same : (param == param) ≡ true = ground arith in
    let differ : (param == other) ≡ false = ground arith in
    (
      record c {
        store = t;
        parameter_referents =
            λ i. if i == other then q else if i == param then p else c.parameter_referents i;
      },
      rw (inside, ◌>>=◌, inside', ◌>>=◌, inside, differ, same, e) refl,
      h,
    )

-- the first pointer of a region
IsRegion-first :
    (c : Segment) (a size : ℕ) (m : Segments) → 0 < size → IsRegion c a size m → try_segment a m ≡ c
IsRegion-first c a size m pos (ne, at) = let z : a + 0 ≡ a = omega arith in rw z at (at 0 pos)

-- A caller saves a pointer as a parameter, and another one behind it; the function that it calls pulls
-- the first one into its variable at `ptr`, in the heap, on the stack or among the globals. Each of
-- the calls returns. Saved by `temporal_save_nblock_parameter`, the variable's referent is the
-- timestamp of the block that `from` points into; saved by `temporal_save_nreferent_parameter`, it
-- is the referent of the pointer at `from`; and saved by `temporal_save_copy_parameter`, each
-- pointer in the `size` bytes of the variable has the referent of the one at the same place of the
-- `size` bytes at `from`, which do not overlap them. After a reset, a pull aborts. The
-- variable that a result is pulled into gets the referent of the pointer at `from` that was returned.
pub temporal_pull-save :
    (k d : Segment) (q : TemporalParameter) (ptr from param other size block referent : ℕ)
    (c : Checked Temporal)
    → param < max_parameters
    → other < max_parameters
    → param ≢ other
    → 8 ≤ size
    → IsRegion k ptr size c.store.segments
    → IsRegion d from size c.store.segments
    → (ptr + size ≤ from) ⊎ (from + size ≤ ptr)
    → origin_timestamp from c.store ≡ ok block
    → block < pow2 32
    → referent_timestamp from c.store ≡ ok referent
    → referent < pow2 32
    → Pulls
        (temporal_save_nblock_parameter segment_referents from param)
        q
        other
        ptr
        param
        size
        c
        (λ t. referent_timestamp ptr t ≡ ok block)
      × Pulls
          (temporal_save_nreferent_parameter segment_referents from param)
          q
          other
          ptr
          param
          size
          c
          (λ t. referent_timestamp ptr t ≡ ok referent)
      × Pulls
          (temporal_save_copy_parameter segment_referents from param)
          q
          other
          ptr
          param
          size
          c
          (λ t.
            (i : ℕ)
            → i + 4 ≤ size
            → referent_timestamp (ptr + i) t ≡ referent_timestamp (from + i) c.store)
      × (temporal_pull_parameter segment_referents ptr param size
            (temporal_reset_parameters segment_referents c)
          ≡ abort)
      × ((c' : Checked Temporal) × ((temporal_save_return segment_referents from c
              >>= temporal_pull_return segment_referents ptr)
            ≡ ok c')
          × (referent_timestamp ptr c'.store ≡ ok referent))
unfolding temporal_save_nblock_parameter temporal_save_nreferent_parameter
    temporal_save_copy_parameter temporal_pull_parameter temporal_reset_parameters
    temporal_save_return temporal_pull_return pull temporal_store_nblock temporal_store_nreferent
temporal_pull-save k d q ptr from param other size block referent c lt lt' ne long to source apart
      origin word stored word' =
    let at = IsRegion-first k ptr size c.store.segments (omega arith) to in
    let inside : ltb param max_parameters ≡ true = ground arith in
    let (t1, e1, r1) = store_temporal_referent_lem k ptr block c.store to.0 at word in
    let (t2, e2, r2) = store_temporal_referent_lem k ptr referent c.store to.0 at word' in
    let (t3, e3, r3, _) =
      temporal_memcpy-referents k d ptr from size c.store long to source apart in
    (
      pull-save_parameter (block_n from) q other ptr param size c t1
          (λ t. referent_timestamp ptr t ≡ ok block) lt lt' ne (rw (origin, ◌>>=◌) e1) r1,
      pull-save_parameter (referent_n from) q other ptr param size c t2
          (λ t. referent_timestamp ptr t ≡ ok referent) lt lt' ne (rw (stored, ◌>>=◌) e2) r2,
      pull-save_parameter (copied from) q other ptr param size c t3
          (λ t.
            (i : ℕ)
            → i + 4 ≤ size
            → referent_timestamp (ptr + i) t ≡ referent_timestamp (from + i) c.store)
          lt lt' ne e3 r3,
      rw inside refl,
      (record c { return_referent = referent; store = t2 }, rw (stored, ◌>>=◌, e2) refl, r2),
    )
