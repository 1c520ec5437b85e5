-- ===== src/Segment/Temporal/Copies.antt =====
-- Copies of the referents of a region, with the memory that the pointers stand in.
use frama_c_snapshot.Prelude.{
  ℕ, zero, suc, ◌+◌, ◌-◌, ◌<◌, ◌≤◌, ◌≡◌, ◌≢◌, ◌⊎◌, refl, sym, ap, ◌∙◌, arith, true, false, leb, ltb,
  ◌&&◌, if◌then◌else◌,
}
use frama_c_snapshot.Prelude.Run.{ok, ◌>>=◌}
use frama_c_snapshot.Segment.Words.{Bytes, load, load_same, fill, fill_inside, fill_outside}
use frama_c_snapshot.Segment.Mmodel.{Segment, elsewhere, try_segment}
use frama_c_snapshot.Temporal.{invalid_temporal_timestamp, temporal_memcpy, temporal_memset}
use frama_c_snapshot.Segment.Temporal.Regions.{
  IsRegion, shadow_at, with_shadow_at, shadow_at_lem, put_referent_shadow_lem,
  referent-with_shadow_at, referent-with_same,
}
use frama_c_snapshot.Segment.Temporal.{
  Temporal, referent_timestamp, copy_referents, clear_referents, segment_referents,
}

load_moved :
    (n a b : ℕ) (m m' : Bytes)
    → ((k : ℕ) → k < n → m (a + k) ≡ m' (b + k))
    → load n a m ≡ load n b m'
unfolding load
load_moved zero a b m m' h = refl
load_moved (suc n) a b m m' h =
    let e : a + 0 ≡ a = omega arith in
    let e' : b + 0 ≡ b = omega arith in
    let first = rw (e, e') at (h 0 (omega arith)) in
    let rest = load_moved n (a + 1) (b + 1) m m' (λ k p.
      let q : a + 1 + k ≡ a + suc k = omega arith in
      let q' : b + 1 + k ≡ b + suc k = omega arith in rw (q, q') (h (suc k) (omega arith))) in
    rw (first, rest) refl

-- a shadow with the bytes of another one
abbrev copied : ℕ → ℕ → ℕ → Bytes → Bytes → Bytes
copied dest src size from to =
    λ x. if leb dest x && ltb x (dest + size) then from (src + (x - dest)) else to x

copied_inside :
    (dest src size k : ℕ) (from to : Bytes)
    → k < size
    → copied dest src size from to (dest + k) ≡ from (src + k)
copied_inside dest src size k from to lt =
    let inside : (leb dest (dest + k) && ltb (dest + k) (dest + size)) ≡ true = ground arith in
    let e : dest + k - dest ≡ k = omega arith in rw (inside, e) refl

copied_outside :
    (dest src size x : ℕ) (from to : Bytes)
    → (leb dest x && ltb x (dest + size)) ≡ false
    → copied dest src size from to x ≡ to x
copied_outside dest src size x from to e = rw e refl

copy_referents_lem :
    (c d : Segment) (dest src size : ℕ) (t : Temporal)
    → 0 < size
    → IsRegion c dest size t.segments
    → IsRegion d src size t.segments
    → copy_referents dest src size t
      ≡ ok (with_shadow_at c (copied dest src size (shadow_at d t) (shadow_at c t)) t)
unfolding copy_referents
copy_referents_lem c d dest src size t pos (ne, to) (ne', from) =
    let z : dest + 0 ≡ dest = omega arith in
    let z' : src + 0 ≡ src = omega arith in
    let at = rw z at (to 0 pos) in
    let at' = rw z' at (from 0 pos) in
    let first = (shadow_at_lem c dest t ne at).0 in
    let second = (shadow_at_lem d src t ne' at').0 in
    rw (first, ◌>>=◌, second)
      (put_referent_shadow_lem c dest (copied dest src size (shadow_at d t) (shadow_at c t)) t ne
        at)

-- `temporal_memcpy` of at least the eight bytes of a pointer, from one region to another one that it
-- does not overlap, each in one segment, returns a memory where each pointer in the destination has
-- the referent that the pointer at the same place of the source had, and each pointer outside of
-- the destination, in any segment, has the referent that it had before.
pub temporal_memcpy-referents :
    (c d : Segment) (dest src size : ℕ) (t : Temporal)
    → 8 ≤ size
    → IsRegion c dest size t.segments
    → IsRegion d src size t.segments
    → (dest + size ≤ src) ⊎ (src + size ≤ dest)
    → (t' : Temporal) × (temporal_memcpy segment_referents dest src size t ≡ ok t')
      × ((i : ℕ) → i + 4 ≤ size → referent_timestamp (dest + i) t' ≡ referent_timestamp (src + i) t)
      × ((x : ℕ)
          → (x + 4 ≤ dest) ⊎ (dest + size ≤ x)
          → try_segment x t.segments ≢ elsewhere
          → referent_timestamp x t' ≡ referent_timestamp x t)
unfolding temporal_memcpy
temporal_memcpy-referents c d dest src size t long (ne, to) (ne', from) apart =
    let m = copied dest src size (shadow_at d t) (shadow_at c t) in
    let t' = with_shadow_at c m t in
    let enough : leb 8 size ≡ true = ground arith in
    (
      t',
      rw enough (copy_referents_lem c d dest src size t (omega arith) (ne, to) (ne', from)),
      (λ i lt.
          referent-with_shadow_at c (dest + i) m t ne (to i (omega arith))
          ∙ ap ok (
              load_moved 4 (dest + i) (src + i) m (shadow_at d t) (λ k p.
                let e : dest + i + k ≡ dest + (i + k) = omega arith in
                let e' : src + i + k ≡ src + (i + k) = omega arith in
                rw (e, e')
                  (copied_inside dest src size (i + k) (shadow_at d t) (shadow_at c t)
                    (omega arith))))
          ∙ sym ((shadow_at_lem d (src + i) t ne' (from i (omega arith))).1)),
      (λ x far ne''. referent-with_same c (try_segment x t.segments) x m t ne ne'' refl (
          load_same 4 x m (shadow_at c t) (λ k p.
            copied_outside dest src size (x + k) (shadow_at d t) (shadow_at c t) (ground arith)))),
    )

load_zeros : (a : ℕ) → load 4 a (λ x. 0) ≡ 0
unfolding load
load_zeros a = refl

-- `temporal_memset` of a region in one segment returns a memory where each pointer in the region
-- has the invalid timestamp as its referent, and each pointer outside of it, in any segment, has
-- the referent that it had before.
pub temporal_memset-referents :
    (c : Segment) (dest size : ℕ) (t : Temporal)
    → 0 < size
    → IsRegion c dest size t.segments
    → (t' : Temporal) × (temporal_memset segment_referents dest size t ≡ ok t')
      × ((i : ℕ) → i + 4 ≤ size → referent_timestamp (dest + i) t' ≡ ok invalid_temporal_timestamp)
      × ((x : ℕ)
          → (x + 4 ≤ dest) ⊎ (dest + size ≤ x)
          → try_segment x t.segments ≢ elsewhere
          → referent_timestamp x t' ≡ referent_timestamp x t)
unfolding temporal_memset clear_referents
temporal_memset-referents c dest size t pos (ne, to) =
    let m = fill dest 0 size (shadow_at c t) in
    let z : dest + 0 ≡ dest = omega arith in
    let at = rw z at (to 0 pos) in
    let first = (shadow_at_lem c dest t ne at).0 in
    (
      with_shadow_at c m t,
      rw (first, ◌>>=◌) (put_referent_shadow_lem c dest m t ne at),
      (λ i lt.
          referent-with_shadow_at c (dest + i) m t ne (to i (omega arith))
          ∙ ap ok (
              load_same 4 (dest + i) m (λ x. 0)
                (λ k p. fill_inside dest 0 size (dest + i + k) (shadow_at c t) (ground arith))
              ∙ load_zeros (dest + i))),
      (λ x far ne''. referent-with_same c (try_segment x t.segments) x m t ne ne'' refl (
          load_same 4 x m (shadow_at c t)
            (λ k p. fill_outside dest 0 size (x + k) (shadow_at c t) (ground arith)))),
    )
