-- ===== src/Segment/Static/Blocks.antt =====
-- The contracts of `shadow_alloca`, `static_info`, `static_allocated` and `shadow_freea` of
-- e_acsl_segment_tracking.h.
use frama_c_snapshot.Prelude.{
  ℕ, ◌+◌, ◌-◌, ◌*◌, ◌/◌, ◌%◌, ◌<◌, ◌≤◌, ◌≡◌, refl, sym, ap, ◌∙◌, arith, inl, inr, ◌==◌, true, false,
  ◌&&◌, leb, ltb, get_or, Bool-cases, ◌↔◌,
}
use frama_c_snapshot.Prelude.Bits.{pow2}
use frama_c_snapshot.Segment.Words.{Outside, fill_inside, fill_outside}
use frama_c_snapshot.Segment.Static
use frama_c_snapshot.Segment.Static.Alloca
use frama_c_snapshot.Segment.Static.Info.{
  IsShadowed, short_codes, static_info_lem, static_allocated_lem, sub_word_le,
}

-- the shadow of a byte of a new block: neither of its two low bits is set
abbrev pub IsFresh : Static.Shadows → ℕ → ℕ → ℕ → Type 0
IsFresh s addr k size = IsShadowed s addr k size × (s.primary addr % 4 ≡ 0)

-- a byte below the boundary of a long block has its own segment
long_inside :
    (s : Static.Shadows) (ptr size k : ℕ)
    → 8 < size
    → size < 0x8000_0000
    → k < size - size % 8
    → IsFresh (Static.shadow_alloca ptr size s) (ptr + k) k size
unfolding Static.shadow_alloca
long_inside s ptr size k long small p =
    let n = (size - size % 8) / 8 in
    let s' = Static.alloca_segments n ptr size 0 s in
    let nonzero : (size == 0) ≡ false = ground arith in
    let is_long : ltb 8 size ≡ true = ground arith in
    let place : ptr + k ≡ ptr + 0 + 8 * (k / 8) + k % 8 = omega arith in
    let code : Static.alloca_remainder (size % 8) ptr (size - size % 8) s'.primary (ptr + k)
        ≡ (48 + k % 8) * 4 =
      Alloca.alloca_remainder-Outside (size % 8) ptr (size - size % 8) (ptr + k) s'.primary
        (omega arith)
      ∙ ap s'.primary place
      ∙ Alloca.alloca_segments_codes n ptr size 0 (k / 8) (k % 8) s (omega arith) (omega arith) in
    let at : ptr + k - k % 8 ≡ ptr + 0 + 8 * (k / 8) = omega arith in
    rw (nonzero, is_long, code)
      (
        (
          ground arith,
          inl (
            k % 8,
            8 * (k / 8),
            omega arith,
            omega arith,
            rw at (Alloca.alloca_segments_size n ptr size 0 (k / 8) s (omega arith) (omega arith)),
            rw at (
                Alloca.alloca_segments_offset n ptr size 0 (k / 8) s (omega arith) (omega arith)
                ∙ omega arith),
          ),
        ),
        omega arith,
      )

-- a byte of the remainder uses the last segment
long_remainder :
    (s : Static.Shadows) (ptr size k : ℕ)
    → 8 < size
    → size < 0x8000_0000
    → size - size % 8 ≤ k
    → k < size
    → IsFresh (Static.shadow_alloca ptr size s) (ptr + k) k size
unfolding Static.shadow_alloca
long_remainder s ptr size k long small p q =
    let n = (size - size % 8) / 8 in
    let boundary = size - size % 8 in
    let s' = Static.alloca_segments n ptr size 0 s in
    let nonzero : (size == 0) ≡ false = ground arith in
    let is_long : ltb 8 size ≡ true = ground arith in
    let e : ptr + boundary + (k - boundary) ≡ ptr + k = omega arith in
    let z : boundary + (k - boundary) ≡ k = omega arith in
    let code =
      rw (e, z) at
        (Alloca.alloca_remainder_codes (size % 8) ptr boundary (k - boundary) s'.primary
          (omega arith)) in
    let at : ptr + k - (k % 8 + 8) ≡ ptr + 0 + 8 * (k / 8 - 1) = omega arith in
    rw (nonzero, is_long, code)
      (
        (
          ground arith,
          inl (
            k % 8 + 8,
            8 * (k / 8 - 1),
            omega arith,
            omega arith,
            rw at (
                Alloca.alloca_segments_size n ptr size 0 (k / 8 - 1) s (omega arith) (omega arith)),
            rw at (
                Alloca.alloca_segments_offset n ptr size 0 (k / 8 - 1) s (omega arith) (omega arith)
                ∙ omega arith),
          ),
        ),
        omega arith,
      )

code_nonzero : (c : ℕ) → 0 < c → (c * 4 == 0) ≡ false
code_nonzero c p = ground arith

short_shadowed :
    (s : Static.Shadows) (ptr size k : ℕ)
    → size ≤ 8
    → k < size
    → IsFresh (Static.shadow_alloca ptr size s) (ptr + k) k size
unfolding Static.shadow_alloca
short_shadowed s ptr size k p q =
    let nonzero : (size == 0) ≡ false = ground arith in
    let is_short : ltb 8 size ≡ false = ground arith in
    let base = get_or Static.short_offsets_base size 0 in
    let (o, l, lo, hi) = short_codes size k p q in
    let e : ptr + 0 + k ≡ ptr + k = omega arith in
    let z : base + 0 + k ≡ base + k = omega arith in
    let code =
      rw (e, z) at (Alloca.alloca_short_codes size ptr base 0 k s.primary q (omega arith)) in
    let back : (base + k) * 4 / 4 ≡ base + k = omega arith in
    rw (nonzero, is_short, code, back)
      ((code_nonzero (base + k) lo, inr (omega arith, o, l)), omega arith)

pub shadow_alloca-IsFresh :
    (s : Static.Shadows) (ptr size k : ℕ)
    → size < 0x8000_0000
    → k < size
    → IsFresh (Static.shadow_alloca ptr size s) (ptr + k) k size
shadow_alloca-IsFresh s ptr size k small p = elim (Bool-cases (ltb 8 size)) [
  | inr e ↦ short_shadowed s ptr size k (ground arith) p
  | inl e ↦ elim (Bool-cases (ltb k (size - size % 8))) [
    | inl i ↦ long_inside s ptr size k (ground arith) small (ground arith)
    | inr i ↦ long_remainder s ptr size k (ground arith) small (ground arith) p
  ]
]

-- `shadow_alloca` writes inside of the block only
pub shadow_alloca-Outside :
    (s : Static.Shadows) (ptr size x : ℕ)
    → size < 0x8000_0000
    → 0 < size
    → (Outside ptr size x → (Static.shadow_alloca ptr size s).primary x ≡ s.primary x)
      × (Outside ptr size x → (Static.shadow_alloca ptr size s).secondary x ≡ s.secondary x)
unfolding Static.shadow_alloca
shadow_alloca-Outside s ptr size x small pos =
    let nonzero : (size == 0) ≡ false = ground arith in
    let n = (size - size % 8) / 8 in
    elim (Bool-cases (ltb 8 size)) [
      | inr e ↦
          rw (nonzero, e)
            (
              (λ o.
                  Alloca.alloca_short-Outside size ptr (get_or Static.short_offsets_base size 0) 0 x
                    s.primary (omega arith)),
              (λ o. refl),
            )
      | inl e ↦
          rw (nonzero, e)
            (
              (λ o.
                  Alloca.alloca_remainder-Outside (size % 8) ptr (size - size % 8) x
                    (Static.alloca_segments n ptr size 0 s).primary (omega arith)
                  ∙ Alloca.alloca_segments-primary n ptr size 0 x s (omega arith)),
              (λ o. Alloca.alloca_segments-secondary n ptr size 0 x s (omega arith)),
            )
    ]

-- the end of `static_allocated`, for addresses of a block
pub fits_lem :
    (addr n base_ptr k size : ℕ)
    → k ≤ addr
    → addr - k + size < pow2 64
    → addr < addr - k + size
    → addr - k ≤ base_ptr
    → base_ptr < addr - k + size
    → k + n < pow2 64
    → (Static.fits addr n base_ptr k size ≡ true) ↔ (k + n ≤ size)
fits_lem addr n base_ptr k size a b c d e room =
    let start = sub_word_le addr k a (omega arith) in
    let inside : (k + n) % pow2 64 ≡ k + n = omega arith in
    let top : (addr - k + size) % pow2 64 ≡ addr - k + size = omega arith in
    let lo : leb (addr - k) base_ptr ≡ true = ground arith in
    let hi : ltb base_ptr (addr - k + size) ≡ true = ground arith in
    rw (start, inside, top, lo, hi)
      (elim (Bool-cases (addr == base_ptr)) [
        | inl h ↦ rw h (ground arith)
        | inr h ↦ rw h (ground arith)
      ])

-- After `shadow_alloca` of a block of less than 2^31 bytes that ends inside of the address space,
-- on any shadow, `static_info` of each address of the block gives its base, its offset, its length.
pub static_info-shadow_alloca :
    (s : Static.Shadows) (ptr size k : ℕ)
    → size < 0x8000_0000
    → ptr + size ≤ pow2 64
    → k < size
    → (Static.static_info (ptr + k) Static.base (Static.shadow_alloca ptr size s) ≡ ptr)
      × (Static.static_info (ptr + k) Static.offset (Static.shadow_alloca ptr size s) ≡ k)
      × (Static.static_info (ptr + k) Static.length (Static.shadow_alloca ptr size s) ≡ size)
static_info-shadow_alloca s ptr size k small top p =
    let (b, o, l) =
      static_info_lem (Static.shadow_alloca ptr size s) (ptr + k) k size
        ((shadow_alloca-IsFresh s ptr size k small p).0) (omega arith) (omega arith) in
    (b ∙ omega arith, o, l)

-- After `shadow_alloca` of a block of less than 2^31 bytes that ends inside of the address space,
-- `static_allocated` of a region that starts in the block and does not wrap around, with the base
-- pointer anywhere in the block, holds exactly when the region ends inside of the block.
pub static_allocated-shadow_alloca :
    (s : Static.Shadows) (ptr size k n j : ℕ)
    → size < 0x8000_0000
    → ptr + size < pow2 64
    → k < size
    → j < size
    → k + n < pow2 64
    → (Static.static_allocated (ptr + k) n (ptr + j) (Static.shadow_alloca ptr size s) ≡ true)
      ↔ (k + n ≤ size)
static_allocated-shadow_alloca s ptr size k n j small top p q room =
    let e =
      static_allocated_lem (Static.shadow_alloca ptr size s) (ptr + k) k size n (ptr + j)
        ((shadow_alloca-IsFresh s ptr size k small p).0) (omega arith) (omega arith) in
    rw e (
      fits_lem (ptr + k) n (ptr + j) k size (omega arith) (omega arith) (omega arith) (omega arith)
        (omega arith) room)

-- `shadow_freea` of a block on a shadow that was zero there before the allocation gives back that
-- shadow, at every address.
pub shadow_freea-shadow_alloca :
    (s : Static.Shadows) (ptr size : ℕ)
    → 0 < size
    → size < 0x8000_0000
    → ptr + size ≤ pow2 64
    → ((k : ℕ) → k < size → (s.primary (ptr + k) ≡ 0) × (s.secondary (ptr + k) ≡ 0))
    → (x : ℕ)
    → ((Static.shadow_freea ptr (Static.shadow_alloca ptr size s)).primary x ≡ s.primary x)
      × ((Static.shadow_freea ptr (Static.shadow_alloca ptr size s)).secondary x ≡ s.secondary x)
unfolding Static.shadow_freea
shadow_freea-shadow_alloca s ptr size pos small top zeros x =
    let e : ptr + 0 ≡ ptr = omega arith in
    let len = rw e at ((static_info-shadow_alloca s ptr size 0 small top pos).2) in
    let (p, q) = shadow_alloca-Outside s ptr size x small pos in
    elim (Bool-cases (leb ptr x && ltb x (ptr + size))) [
      | inl i ↦
          let at : ptr + (x - ptr) ≡ x = ground arith in
          let z = rw at at (zeros (x - ptr) (ground arith)) in
          rw len (
            fill_inside ptr 0 size x (Static.shadow_alloca ptr size s).primary i ∙ sym z.0,
            fill_inside ptr 0 size x (Static.shadow_alloca ptr size s).secondary i ∙ sym z.1,
          )
      | inr o ↦ rw len (
        fill_outside ptr 0 size x (Static.shadow_alloca ptr size s).primary o ∙ p (ground arith),
        fill_outside ptr 0 size x (Static.shadow_alloca ptr size s).secondary o ∙ q (ground arith),
      )
    ]
