-- ===== src/Segment/Static/Init.antt =====
-- The contracts of `initialize_static_region`, `mark_readonly_region` and `static_initialized` of
-- e_acsl_segment_tracking.h.
use frama_c_snapshot.Prelude.{
  ℕ, zero, suc, ◌+◌, ◌-◌, ◌%◌, ◌<◌, ◌≤◌, ◌≡◌, refl, sym, ap, ◌∙◌, arith, inl, inr, ◌==◌, true,
  false, Bool, ◌&&◌, leb, ltb, get_or, Bool-cases, ==_iff, ◌↔◌, List, min, all_below, all_below-at,
  bit_or, bit_and, both,
}
use frama_c_snapshot.Prelude.Bits.{pow2, bit_or_zero, bit_and_zero, bit_and_one}
use frama_c_snapshot.Segment.Words.{
  Bytes, Outside, byte_of, or_word, has_bits, or_word-Outside, or_word-byte_of, has_bits_at,
  has_bits_all,
}
use frama_c_snapshot.Segment.Static

-- the byte `i` of the mask for `k` bytes
unfoldable mask_byte : ℕ → ℕ → ℕ → ℕ
mask_byte bit k i = elim (ltb i k) [ true ↦ bit | false ↦ 0 ]

mask_row : List ℕ → ℕ → ℕ → ℕ → Bool
mask_row masks bit k i = byte_of i (get_or masks k 0) == mask_byte bit k i

mask_rows : List ℕ → ℕ → ℕ → Bool
unfolding mask_row
mask_rows masks bit k = all_below (mask_row masks bit k) 8

init_masks : all_below (mask_rows Static.static_init_masks 1) 9 ≡ true
unfolding mask_rows mask_row byte_of mask_byte
init_masks = refl

readonly_masks : all_below (mask_rows Static.static_readonly_masks 2) 9 ≡ true
unfolding mask_rows mask_row byte_of mask_byte
readonly_masks = refl

-- A table of masks that set the same bit of each byte.
module _ (masks : List ℕ) (bit : ℕ) (rows : all_below (mask_rows masks bit) 9 ≡ true) where
  mask_at :
      (size i : ℕ) → i < 8 → byte_of i (get_or masks (min size 8) 0) ≡ mask_byte bit (min size 8) i
  unfolding mask_rows mask_row
  mask_at size i p =
      let row = all_below-at (mask_rows masks bit) 9 (min size 8) rows (omega arith) in
      (==_iff _ _).0 (all_below-at (mask_row masks bit (min size 8)) 8 i row p)

  -- one word
  or_mask :
      (size addr x : ℕ) (m : Bytes)
      → (addr ≤ x
          → x < addr + min size 8
          → or_word 8 addr (get_or masks (min size 8) 0) m x ≡ bit_or (m x) bit)
        × (Outside addr (min size 8) x → or_word 8 addr (get_or masks (min size 8) 0) m x ≡ m x)
  unfolding mask_byte
  or_mask size addr x m = elim (Bool-cases (leb addr x && ltb x (addr + 8))) [
    | inl i ↦
        let at : addr + (x - addr) ≡ x = ground arith in
        let byte =
          rw at at
            (or_word-byte_of 8 (x - addr) addr (get_or masks (min size 8) 0) m (ground arith)) in
        let mask = mask_at size (x - addr) (ground arith) in
        (
          (λ lo hi.
              let test : ltb (x - addr) (min size 8) ≡ true = ground arith in
              byte ∙ rw (mask, mask_byte, test) refl),
          (λ o.
              let test : ltb (x - addr) (min size 8) ≡ false = ground arith in
              byte ∙ rw (mask, mask_byte, test) (bit_or_zero (m x))),
        )
    | inr i ↦ (
      (λ lo hi. absurd (ground arith)),
      (λ o. or_word-Outside 8 addr (get_or masks (min size 8) 0) x m (ground arith)),
    )
  ]

  set_masks_sets :
      (fuel addr size x : ℕ) (m : Bytes)
      → size ≤ fuel
      → (addr ≤ x → x < addr + size → Static.set_masks masks fuel addr size m x ≡ bit_or (m x) bit)
        × (Outside addr size x → Static.set_masks masks fuel addr size m x ≡ m x)
  unfolding Static.set_masks
  set_masks_sets zero addr size x m p = ((λ lo hi. absurd (omega arith)), λ o. refl)
  set_masks_sets (suc fuel) addr size x m p = elim (Bool-cases (size == 0)) [
    | inl z ↦ rw (Static.set_masks, z) ((λ lo hi. absurd (ground arith)), λ o. refl)
    | inr z ↦
        let word = or_word 8 addr (get_or masks (min size 8) 0) m in
        let rest = set_masks_sets fuel (addr + 8) (size - 8) x word (ground arith) in
        let first = or_mask size addr x m in
        rw (Static.set_masks, z)
          (
            (λ lo hi. elim (Bool-cases (ltb x (addr + 8))) [
              | inl i ↦ rest.1 (ground arith) ∙ first.0 lo (ground arith)
              | inr i ↦
                  rest.0 (ground arith) (ground arith)
                  ∙ ap (λ (t : ℕ). bit_or t bit) (first.1 (ground arith))
            ]),
            (λ o. rest.1 (ground arith) ∙ first.1 (ground arith)),
          )
  ]

positive_same : (size : ℕ) → size < pow2 63 → Static.positive size ≡ size
positive_same size small = let below : ltb size (pow2 63) ≡ true = ground arith in rw below refl

-- `initialize_static_region` sets the initialization bit of each byte of the region, and changes no
-- other byte of the primary shadow.
pub initialize_static_region_lem :
    (addr size x : ℕ) (s : Static.Shadows)
    → size < pow2 63
    → (addr ≤ x
        → x < addr + size
        → (Static.initialize_static_region addr size s).primary x ≡ bit_or (s.primary x) 1)
      × (Outside addr size x
          → (Static.initialize_static_region addr size s).primary x ≡ s.primary x)
unfolding Static.initialize_static_region
initialize_static_region_lem addr size x s small =
    rw (positive_same size small) (
      set_masks_sets Static.static_init_masks 1 init_masks size addr size x s.primary (omega arith))

pub mark_readonly_region_lem :
    (addr size x : ℕ) (s : Static.Shadows)
    → size < pow2 63
    → (addr ≤ x
        → x < addr + size
        → (Static.mark_readonly_region addr size s).primary x ≡ bit_or (s.primary x) 2)
      × (Outside addr size x → (Static.mark_readonly_region addr size s).primary x ≡ s.primary x)
unfolding Static.mark_readonly_region
mark_readonly_region_lem addr size x s small = rw (positive_same size small) (
    set_masks_sets Static.static_readonly_masks 2 readonly_masks size addr size x s.primary
      (omega arith))

-- the test of `static_initialized` on one byte
init_bit : ℕ → Bool
init_bit byte = bit_and byte 1 == 1

-- every byte of a region has its initialization bit
abbrev pub AllInitialized : ℕ → ℕ → Bytes → Type 0
AllInitialized addr size m = (k : ℕ) → k < size → m (addr + k) % 2 ≡ 1

mask_word :
    (size addr : ℕ) (m : Bytes)
    → AllInitialized addr (min size 8) m
    → has_bits 8 addr (get_or Static.static_init_masks (min size 8) 0) m ≡ true
unfolding mask_byte
mask_word size addr m h =
    has_bits_all 8 addr (get_or Static.static_init_masks (min size 8) 0) m (λ i p.
      let mask = mask_at Static.static_init_masks 1 init_masks size i p in
      elim (Bool-cases (ltb i (min size 8))) [
        | inl e ↦ rw (mask, mask_byte, e) (bit_and_one (m (addr + i)) ∙ h i (ground arith))
        | inr e ↦ rw (mask, mask_byte, e) (bit_and_zero (m (addr + i)))
      ])

mask_word_at :
    (size addr : ℕ) (m : Bytes)
    → has_bits 8 addr (get_or Static.static_init_masks (min size 8) 0) m ≡ true
    → AllInitialized addr (min size 8) m
unfolding mask_byte
mask_word_at size addr m h i p =
    let mask = mask_at Static.static_init_masks 1 init_masks size i (omega arith) in
    let test : ltb i (min size 8) ≡ true = ground arith in
    let bits =
      has_bits_at 8 i addr (get_or Static.static_init_masks (min size 8) 0) m h (omega arith) in
    sym (bit_and_one (m (addr + i))) ∙ rw (mask, mask_byte, test) at bits

check_masks_complete :
    (fuel addr size : ℕ) (m : Bytes)
    → AllInitialized addr size m
    → Static.check_masks fuel addr size m ≡ true
unfolding Static.check_masks
check_masks_complete zero addr size m h = refl
check_masks_complete (suc fuel) addr size m h = elim (Bool-cases (size == 0)) [
  | inl z ↦ rw (Static.check_masks, z) refl
  | inr z ↦
      let word = mask_word size addr m (λ k p. h k (omega arith)) in
      let rest = check_masks_complete fuel (addr + 8) (size - 8) m (λ k p.
        let e : addr + (k + 8) ≡ addr + 8 + k = omega arith in rw e at (h (k + 8) (omega arith))) in
      rw (Static.check_masks, z, word, rest) refl
]

check_masks_sound :
    (fuel addr size : ℕ) (m : Bytes)
    → size ≤ fuel
    → Static.check_masks fuel addr size m ≡ true
    → AllInitialized addr size m
unfolding Static.check_masks
check_masks_sound zero addr size m p h k q = absurd (omega arith)
check_masks_sound (suc fuel) addr size m p h k q =
    let z : (size == 0) ≡ false = ground arith in
    let (word, rest) =
      both (has_bits 8 addr (get_or Static.static_init_masks (min size 8) 0) m)
        (Static.check_masks fuel (addr + 8) (size - 8) m) (rw (Static.check_masks, z) at h) in
    elim (Bool-cases (ltb k 8)) [
      | inl i ↦ mask_word_at size addr m word k (ground arith)
      | inr i ↦
          let e : addr + 8 + (k - 8) ≡ addr + k = ground arith in
          rw e at (
            check_masks_sound fuel (addr + 8) (size - 8) m (omega arith) rest (k - 8)
              (ground arith))
    ]

-- `static_initialized` holds exactly for the regions that `static_allocated` accepts, with their
-- first address as base pointer, and in which every byte has its initialization bit.
pub static_initialized-AllInitialized :
    (addr size : ℕ) (s : Static.Shadows)
    → size < pow2 63
    → (Static.static_initialized addr size s ≡ true)
      ↔ ((Static.static_allocated addr size addr s ≡ true) × AllInitialized addr size s.primary)
unfolding Static.static_initialized
static_initialized-AllInitialized addr size s small =
    elim (Bool-cases (Static.static_allocated addr size addr s)) [
      | inl e ↦
          rw (e, positive_same size small)
            (
              (λ h. (refl, check_masks_sound size addr size s.primary (omega arith) h)),
              λ h. check_masks_complete size addr size s.primary (h.1),
            )
      | inr e ↦ rw e ((λ h. absurd (ground arith)), λ h. absurd (ground arith))
    ]
