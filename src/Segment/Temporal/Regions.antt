-- ===== src/Segment/Temporal/Regions.antt =====
-- Regions of one segment, and the shadow of the referents of the pointers in them.
use frama_c_snapshot.Prelude.{ℕ, ◌+◌, ◌<◌, ◌≡◌, ◌≢◌, refl, sym, ap, ◌∙◌}
use frama_c_snapshot.Prelude.Run.{ok}
use frama_c_snapshot.Segment.Words.{Bytes, load}
use frama_c_snapshot.Segment.Mmodel.{Segments, Segment, on_heap, on_static, elsewhere, try_segment}
use frama_c_snapshot.Segment.Temporal.Stamps.{referent-on_heap, referent-on_static}
use frama_c_snapshot.Segment.Temporal.{
  Temporal, referent_timestamp, temporal_referent_shadow, put_referent_shadow,
}

-- the shadow of the referents of a segment
pub shadow_at : Segment → Temporal → Bytes
shadow_at on_heap t = t.heap_referents
shadow_at on_static t = t.static_secondary
shadow_at elsewhere t = λ x. 0

pub with_shadow_at : Segment → Bytes → Temporal → Temporal
with_shadow_at on_heap m t = record t { heap_referents = m }
with_shadow_at on_static m t = record t { static_secondary = m }
with_shadow_at elsewhere m t = t

-- A region in one segment.
abbrev pub IsRegion : Segment → ℕ → ℕ → Segments → Type 0
IsRegion c a size m = (c ≢ elsewhere) × ((k : ℕ) → k < size → try_segment (a + k) m ≡ c)

pub shadow_at_lem :
    (c : Segment) (a : ℕ) (t : Temporal)
    → c ≢ elsewhere
    → try_segment a t.segments ≡ c
    → (temporal_referent_shadow a t ≡ ok (shadow_at c t))
      × (referent_timestamp a t ≡ ok (load 4 a (shadow_at c t)))
unfolding shadow_at temporal_referent_shadow
shadow_at_lem on_heap a t ne e = (rw (temporal_referent_shadow, e) refl, referent-on_heap a t e)
shadow_at_lem on_static a t ne e = (rw (temporal_referent_shadow, e) refl, referent-on_static a t e)
shadow_at_lem elsewhere a t ne e = absurd (ne refl)

pub put_referent_shadow_lem :
    (c : Segment) (a : ℕ) (m : Bytes) (t : Temporal)
    → c ≢ elsewhere
    → try_segment a t.segments ≡ c
    → put_referent_shadow a m t ≡ ok (with_shadow_at c m t)
unfolding with_shadow_at put_referent_shadow
put_referent_shadow_lem on_heap a m t ne e = rw (put_referent_shadow, e) refl
put_referent_shadow_lem on_static a m t ne e = rw (put_referent_shadow, e) refl
put_referent_shadow_lem elsewhere a m t ne e = absurd (ne refl)

-- the referent of a pointer after its shadow, or another one, is replaced
pub referent-with_shadow_at :
    (c : Segment) (a : ℕ) (m : Bytes) (t : Temporal)
    → c ≢ elsewhere
    → try_segment a t.segments ≡ c
    → referent_timestamp a (with_shadow_at c m t) ≡ ok (load 4 a m)
unfolding with_shadow_at try_segment
referent-with_shadow_at on_heap a m t ne e = referent-on_heap a (record t { heap_referents = m }) e
referent-with_shadow_at on_static a m t ne e =
    referent-on_static a (record t { static_secondary = m }) e
referent-with_shadow_at elsewhere a m t ne e = absurd (ne refl)

pub referent-with_same :
    (c d : Segment) (a : ℕ) (m : Bytes) (t : Temporal)
    → c ≢ elsewhere
    → d ≢ elsewhere
    → try_segment a t.segments ≡ d
    → load 4 a m ≡ load 4 a (shadow_at c t)
    → referent_timestamp a (with_shadow_at c m t) ≡ referent_timestamp a t
unfolding with_shadow_at shadow_at try_segment
referent-with_same on_heap on_heap a m t ne ne' e same =
    referent-on_heap a (record t { heap_referents = m }) e
    ∙ ap ok same
    ∙ sym (referent-on_heap a t e)
referent-with_same on_static on_static a m t ne ne' e same =
    referent-on_static a (record t { static_secondary = m }) e
    ∙ ap ok same
    ∙ sym (referent-on_static a t e)
referent-with_same on_heap on_static a m t ne ne' e same =
    referent-on_static a (record t { heap_referents = m }) e ∙ sym (referent-on_static a t e)
referent-with_same on_static on_heap a m t ne ne' e same =
    referent-on_heap a (record t { static_secondary = m }) e ∙ sym (referent-on_heap a t e)
referent-with_same elsewhere d a m t ne ne' e same = absurd (ne refl)
referent-with_same c elsewhere a m t ne ne' e same = absurd (ne' refl)
