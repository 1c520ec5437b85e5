-- ===== src/Segment/Static/Marking.antt =====
-- The marks that initialization and protection leave on a block of the stack or on a global, in
-- e_acsl_segment_tracking.h.
use frama_c_snapshot.Prelude.{
  ℕ, ◌+◌, ◌-◌, ◌/◌, ◌%◌, ◌<◌, ◌≤◌, ◌≡◌, refl, ◌∙◌, arith, inl, inr, ◌==◌, true, false, ◌&&◌, ◌||◌,
  leb, ltb, Bool-cases, ==_iff, ◌↔◌, bit_or,
}
use frama_c_snapshot.Prelude.Bits.{pow2, bit_or_one_half, bit_or_one_odd, bit_or_half, bit_or_step}
use frama_c_snapshot.Segment.Static
use frama_c_snapshot.Segment.Static.Info.{
  IsShadowed, IsShadowed-same, static_info_lem, static_allocated_lem,
}
use frama_c_snapshot.Segment.Static.Blocks.{shadow_alloca-IsFresh, fits_lem}
use frama_c_snapshot.Segment.Static.Init.{
  AllInitialized, initialize_static_region_lem, mark_readonly_region_lem,
  static_initialized-AllInitialized,
}

initialize_static_region-secondary :
    (addr size : ℕ) (s : Static.Shadows)
    → (Static.initialize_static_region addr size s).secondary ≡ s.secondary
unfolding Static.initialize_static_region
initialize_static_region-secondary addr size s = refl

or_one_code : (p : ℕ) → (p == 0) ≡ false → (bit_or p 1 / 4 ≡ p / 4) × ((bit_or p 1 == 0) ≡ false)
or_one_code p h =
    let half = bit_or_one_half p in
    let odd = bit_or_one_odd p in
    let nonzero : (0 < bit_or p 1) = omega arith in (omega arith, ground arith)

bit_or_two :
    (p : ℕ) → (bit_or p 2 / 2 % 2 ≡ 1) × (bit_or p 2 % 2 ≡ p % 2) × (bit_or p 2 / 4 ≡ p / 4)
bit_or_two p =
    let half : bit_or p 2 / 2 ≡ bit_or (p / 2) 1 = bit_or_half p 2 in
    let odd = bit_or_one_odd (p / 2) in
    let quarter = bit_or_one_half (p / 2) in
    let low = bit_or_step p 2 in (omega arith, omega arith, omega arith)

-- initialization changes no code of the shadow
pub initialize_static_region-IsShadowed :
    (addr size x k len : ℕ) (s : Static.Shadows)
    → size < pow2 63
    → IsShadowed s x k len
    → IsShadowed (Static.initialize_static_region addr size s) x k len
initialize_static_region-IsShadowed addr size x k len s small h =
    let s' = Static.initialize_static_region addr size s in
    let (inside, outside) = initialize_static_region_lem addr size x s small in
    let (code, nonzero) = or_one_code (s.primary x) (h.0) in
    let second = initialize_static_region-secondary addr size s in
    elim (Bool-cases (leb addr x && ltb x (addr + size))) [
      | inl i ↦
          let e = inside (ground arith) (ground arith) in
          IsShadowed-same s s' x k len h (rw e code) (rw e nonzero) second
      | inr i ↦
          let e = outside (ground arith) in
          IsShadowed-same s s' x k len h (rw e refl) (rw e (h.0)) second
    ]

-- which bytes of a new block are marked
marked_odd :
    (s : Static.Shadows) (ptr size k n i : ℕ)
    → size < 0x8000_0000
    → n < pow2 63
    → i < size
    → ((Static.initialize_static_region (ptr + k) n (Static.shadow_alloca ptr size s)).primary
            (ptr + i)
          % 2
        ≡ 1)
      ↔ ((k ≤ i) × (i < k + n))
marked_odd s ptr size k n i small long p =
    let fresh = Static.shadow_alloca ptr size s in
    let (inside, outside) = initialize_static_region_lem (ptr + k) n (ptr + i) fresh long in
    elim (Bool-cases (leb k i && ltb i (k + n))) [
      | inl e ↦
          let code = inside (ground arith) (ground arith) in
          (
            (λ h. (ground arith, ground arith)),
            λ h. rw code (bit_or_one_odd (fresh.primary (ptr + i))),
          )
      | inr e ↦
          let code = outside (ground arith) in
          let even = (shadow_alloca-IsFresh s ptr size i small p).1 in
          ((λ h. absurd (let h' = rw code at h in omega arith)), λ h. absurd (ground arith))
    ]

marked_region :
    (s : Static.Shadows) (ptr size k n i m : ℕ)
    → size < 0x8000_0000
    → n < pow2 63
    → 0 < m
    → i + m ≤ size
    → AllInitialized
        (ptr + i)
        m
        ((Static.initialize_static_region (ptr + k) n (Static.shadow_alloca ptr size s)).primary)
      ↔ ((k ≤ i) × (i + m ≤ k + n))
marked_region s ptr size k n i m small long pos end = (
  (λ all.
      let at : ptr + i + 0 ≡ ptr + i = omega arith in
      let first = (marked_odd s ptr size k n i small long (omega arith)).0 (rw at at (all 0 pos)) in
      let at' : ptr + i + (m - 1) ≡ ptr + (i + (m - 1)) = omega arith in
      let last =
        (marked_odd s ptr size k n (i + (m - 1)) small long (omega arith)).0
          (rw at' at (all (m - 1) (omega arith))) in
      (first.0, omega (arith, last.1))),
  (λ within j q.
      let at : ptr + (i + j) ≡ ptr + i + j = omega arith in
      rw at at (
        (marked_odd s ptr size k n (i + j) small long (omega arith)).1
          (omega (arith, within.0), omega (arith, within.1)))),
)

-- After `shadow_alloca` of a block of less than 2^31 bytes that ends inside of the address space and
-- `initialize_static_region` of a region of it, `static_initialized` of a region of at least one
-- byte of the block holds exactly when the region lies in the initialized one (so never where that
-- one has no bytes), and `static_info` still gives the base, the offset and the length at its first
-- address.
pub initialize_static_region-shadow_alloca :
    (s : Static.Shadows) (ptr size k n i m : ℕ)
    → size < 0x8000_0000
    → ptr + size < pow2 64
    → k + n ≤ size
    → 0 < m
    → i + m ≤ size
    → (let marked = Static.initialize_static_region (ptr + k) n (Static.shadow_alloca ptr size s) in
        ((Static.static_initialized (ptr + i) m marked ≡ true) ↔ ((k ≤ i) × (i + m ≤ k + n)))
        × (Static.static_info (ptr + i) Static.base marked ≡ ptr)
        × (Static.static_info (ptr + i) Static.offset marked ≡ i)
        × (Static.static_info (ptr + i) Static.length marked ≡ size))
initialize_static_region-shadow_alloca s ptr size k n i m small top room pos end =
    let fresh = Static.shadow_alloca ptr size s in
    let marked = Static.initialize_static_region (ptr + k) n fresh in
    let shadowed =
      initialize_static_region-IsShadowed (ptr + k) n (ptr + i) i size fresh (omega arith)
        ((shadow_alloca-IsFresh s ptr size i small (omega arith)).0) in
    let iff = static_initialized-AllInitialized (ptr + i) m marked (omega arith) in
    let region = marked_region s ptr size k n i m small (omega arith) pos end in
    let fits =
      fits_lem (ptr + i) m (ptr + i) i size (omega arith) (omega arith) (omega arith) (omega arith)
        (omega arith) (omega arith) in
    let allocated =
      static_allocated_lem marked (ptr + i) i size m (ptr + i) shadowed (omega arith)
        (omega arith) in
    let (b, o, l) = static_info_lem marked (ptr + i) i size shadowed (omega arith) (omega arith) in
    (
      ((λ h. region.0 ((iff.0 h).1)), λ h. iff.1 (allocated ∙ fits.1 end, region.1 h)),
      b ∙ omega arith,
      o,
      l,
    )

-- After `mark_readonly_region` of a size that is not negative, `global_readonly` holds at the addresses of the region and where it
-- held before, and the initialization bits and codes of the primary shadow are as they were.
pub mark_readonly_region-global_readonly :
    (addr size x : ℕ) (s : Static.Shadows)
    → size < pow2 63
    → (Static.global_readonly x (Static.mark_readonly_region addr size s)
        ≡ (leb addr x && ltb x (addr + size) || Static.global_readonly x s))
      × ((Static.mark_readonly_region addr size s).primary x % 2 ≡ s.primary x % 2)
      × ((Static.mark_readonly_region addr size s).primary x / 4 ≡ s.primary x / 4)
unfolding Static.global_readonly
mark_readonly_region-global_readonly addr size x s small =
    let (inside, outside) = mark_readonly_region_lem addr size x s small in
    let (set, low, high) = bit_or_two (s.primary x) in
    elim (Bool-cases (leb addr x && ltb x (addr + size))) [
      | inl e ↦
          let code = inside (ground arith) (ground arith) in
          rw (e, code) ((==_iff _ _).1 set, low, high)
      | inr e ↦ let code = outside (ground arith) in rw (e, code) (refl, refl, refl)
    ]
