-- ===== src/Segment/Static/Info.antt =====
-- What the shadow of a block on the stack or of a global says to `static_info` and
-- `static_allocated` of e_acsl_segment_tracking.h.
use frama_c_snapshot.Prelude.{
  ℕ, ◌+◌, ◌-◌, ◌/◌, ◌<◌, ◌≤◌, ◌≡◌, ◌⊎◌, refl, ◌∙◌, arith, inl, inr, ◌==◌, true, false, Bool, ◌&&◌,
  leb, ltb, get_or, ==_iff, all_below, all_below-at, both, ltb→lt,
}
use frama_c_snapshot.Prelude.Bits.{pow2}
use frama_c_snapshot.Segment.Words.{load}
use frama_c_snapshot.Segment.Static

-- The code of an address in a long block, `skip` bytes behind the start of a segment.
abbrev pub IsLong : Static.Shadows → ℕ → ℕ → ℕ → Type 0
IsLong s addr k size =
    (skip : ℕ) × (before : ℕ) × (s.primary addr / 4 ≡ 48 + skip)
    × (before + skip ≡ k)
    × (load 4 (addr - skip) s.secondary ≡ size)
    × (load 4 (addr - skip + 4) s.secondary ≡ before)

abbrev pub IsShort : Static.Shadows → ℕ → ℕ → ℕ → Type 0
IsShort s addr k size =
    (s.primary addr / 4 < 48)
    × (get_or Static.short_offsets (s.primary addr / 4) 0 ≡ k)
    × (get_or Static.short_lengths (s.primary addr / 4) 0 ≡ size)

-- The shadow at `addr` is that of the byte `k` of a block of `size` bytes.
abbrev pub IsShadowed : Static.Shadows → ℕ → ℕ → ℕ → Type 0
IsShadowed s addr k size =
    ((s.primary addr == 0) ≡ false) × (IsLong s addr k size ⊎ IsShort s addr k size)

pub sub_word_le : (a b : ℕ) → b ≤ a → a < pow2 64 → Static.sub_word a b ≡ a - b
unfolding Static.sub_word
sub_word_le a b p q = omega arith

pub static_info_lem :
    (s : Static.Shadows) (addr k size : ℕ)
    → IsShadowed s addr k size
    → k ≤ addr
    → addr < pow2 64
    → (Static.static_info addr Static.base s ≡ addr - k)
      × (Static.static_info addr Static.offset s ≡ k)
      × (Static.static_info addr Static.length s ≡ size)
unfolding Static.static_info
static_info_lem s addr k size (z, inl (skip, before, c, e, l, b)) p q =
    let long : leb 48 (s.primary addr / 4) ≡ true = ground arith in
    let cut : s.primary addr / 4 - 48 ≡ skip = omega arith in
    let start = sub_word_le addr skip (omega arith) q in
    let base = sub_word_le (addr - skip) before (omega arith) (omega arith) in
    rw (z, long, cut, start, l, b, base) (omega arith, e, refl)
static_info_lem s addr k size (z, inr (c, o, l)) p q =
    let short : leb 48 (s.primary addr / 4) ≡ false = ground arith in
    rw (z, short, o, l) (sub_word_le addr k p q, refl, refl)

pub static_allocated_lem :
    (s : Static.Shadows) (addr k size n base_ptr : ℕ)
    → IsShadowed s addr k size
    → k ≤ addr
    → addr < pow2 64
    → Static.static_allocated addr n base_ptr s ≡ Static.fits addr n base_ptr k size
unfolding Static.static_allocated
static_allocated_lem s addr k size n base_ptr (z, inl (skip, before, c, e, l, b)) p q =
    let long : leb 48 (s.primary addr / 4) ≡ true = ground arith in
    let cut : s.primary addr / 4 - 48 ≡ skip = omega arith in
    let start = sub_word_le addr skip (omega arith) q in rw (z, long, cut, start, l, b, e) refl
static_allocated_lem s addr k size n base_ptr (z, inr (c, o, l)) p q =
    let short : leb 48 (s.primary addr / 4) ≡ false = ground arith in rw (z, short, o, l) refl

-- a shadow with the same code, whatever its two low bits
pub IsShadowed-same :
    (s s' : Static.Shadows) (addr k size : ℕ)
    → IsShadowed s addr k size
    → s'.primary addr / 4 ≡ s.primary addr / 4
    → ((s'.primary addr == 0) ≡ false)
    → s'.secondary ≡ s.secondary
    → IsShadowed s' addr k size
IsShadowed-same s s' addr k size (z, inl (skip, before, c, e, l, b)) p q r =
    (q, inl (skip, before, p ∙ c, e, rw r l, rw r b))
IsShadowed-same s s' addr k size (z, inr (c, o, l)) p q r = (q, inr (rw p c, rw p o, rw p l))

short_at : ℕ → ℕ → Bool
short_at size k =
    let code = get_or Static.short_offsets_base size 0 + k in
    (get_or Static.short_offsets code 0 == k && get_or Static.short_lengths code 0 == size)
    && ltb 0 code

short_size : ℕ → Bool
unfolding short_at
short_size size =
    all_below (short_at size) size && ltb (get_or Static.short_offsets_base size 0 + size) 48

short_sizes : all_below short_size 9 ≡ true
unfolding short_size short_at
short_sizes = refl

pub short_codes :
    (size k : ℕ)
    → size ≤ 8
    → k < size
    → (get_or Static.short_offsets (get_or Static.short_offsets_base size 0 + k) 0 ≡ k)
      × (get_or Static.short_lengths (get_or Static.short_offsets_base size 0 + k) 0 ≡ size)
      × (0 < get_or Static.short_offsets_base size 0 + k)
      × (get_or Static.short_offsets_base size 0 + size < 48)
unfolding short_size short_at
short_codes size k p q =
    let base = get_or Static.short_offsets_base size 0 in
    let (each, hi) =
      both (all_below (short_at size) size) (ltb (base + size) 48)
        (all_below-at short_size 9 size short_sizes (omega arith)) in
    let (ol, lo) =
      both
        (get_or Static.short_offsets (base + k) 0 == k
          && get_or Static.short_lengths (base + k) 0 == size)
        (ltb 0 (base + k)) (all_below-at (short_at size) size k each q) in
    let (o, l) =
      both (get_or Static.short_offsets (base + k) 0 == k)
        (get_or Static.short_lengths (base + k) 0 == size) ol in
    ((==_iff _ _).0 o, (==_iff _ _).0 l, ltb→lt _ _ lo, ltb→lt _ _ hi)
