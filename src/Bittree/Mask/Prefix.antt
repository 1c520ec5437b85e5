-- ===== src/Bittree/Mask/Prefix.antt =====
-- Prefixes cut from words by the masks, and the contract of `mask`.
use frama_c_snapshot.Prelude.{
  ℕ, zero, suc, ◌+◌, ◌-◌, ◌<◌, ◌≤◌, ◌≡◌, sym, ap, ◌∙◌, true, some, arith, leb, leb→le, ◌==◌, ==_iff,
  get_elem?, inl, inr, Bool-cases, ◌*◌, bit_and,
}
use frama_c_snapshot.Prelude.Bits.{
  shr, pow2, pow2_pos, pow2_mono, bit_and_prefix, shr_floor, shr_of_floor, shr-add,
}
use frama_c_snapshot.Bittree.Tables.{WordBits, bits, tmasks}
use frama_c_snapshot.Bittree.Mask.Search.{
  diff, diff-le, leb-diff, tmasks-mask_of, tmasks_entry, mask-mask_of,
}
use frama_c_snapshot.Bittree.Mask.{mask, mask_of}

mul_le : (x y k : ℕ) → x ≤ y → x * k ≤ y * k
mul_le x y zero h = omega arith
mul_le x y (suc k) h = let e : suc k ≡ k + 1 = omega arith in rw e (omega (arith, mul_le x y k h))

mul_lt : (x y k : ℕ) → 0 < k → x < y → x * k < y * k
mul_lt x y k p h =
    let e : suc x ≡ x + 1 = omega arith in omega (arith, rw e at (mul_le (suc x) y k h))

floor_eq : (x y k : ℕ) → 0 < k → (x * k == y * k) ≡ (x == y)
floor_eq x y k h = elim (Bool-cases (x == y)) [
  | inl e ↦ let q : x ≡ y = ground arith in rw q (ground arith)
  | inr n ↦ ground (arith, mul_lt x y k h, mul_lt y x k h)
]

floor_le : (x y k : ℕ) → 0 < k → leb (x * k) (y * k) ≡ leb x y
floor_le x y k h = elim (Bool-cases (leb x y)) [
  | inl e ↦ ground (arith, mul_le x y k)
  | inr n ↦ ground (arith, mul_lt y x k h)
]

shr_floor_above : (a j k : ℕ) → j ≤ k → shr (shr a j * pow2 j) k ≡ shr a k
shr_floor_above a j k h =
    let e : j + (k - j) ≡ k = omega arith in
    sym (shr-add (shr a j * pow2 j) j (k - j) ∙ ap (λ (t : ℕ). shr (shr a j * pow2 j) t) e)
    ∙ ap (λ (t : ℕ). shr t (k - j)) (shr_of_floor (shr a j) j)
    ∙ shr-add a j (k - j)
    ∙ ap (λ (t : ℕ). shr a t) e

-- Two prefixes cut by one mask are equal exactly where the words agree above it.
pub prefix_eq :
    (n j a x : ℕ)
    → j ≤ n
    → a < pow2 n
    → x < pow2 n
    → (bit_and a (pow2 n - pow2 j) == bit_and x (pow2 n - pow2 j)) ≡ (shr a j == shr x j)
prefix_eq n j a x h p q =
    rw (bit_and_prefix n j a h p, bit_and_prefix n j x h q)
      (floor_eq (shr a j) (shr x j) (pow2 j) (pow2_pos j))

-- They are ordered as the words above it.
pub prefix_le :
    (n j a x : ℕ)
    → j ≤ n
    → a < pow2 n
    → x < pow2 n
    → leb (bit_and a (pow2 n - pow2 j)) (bit_and x (pow2 n - pow2 j)) ≡ leb (shr a j) (shr x j)
prefix_le n j a x h p q =
    rw (bit_and_prefix n j a h p, bit_and_prefix n j x h q)
      (floor_le (shr a j) (shr x j) (pow2 j) (pow2_pos j))

-- A cut prefix is a word, and agrees with the word above the cut.
pub prefix-lt : (n j a : ℕ) → j ≤ n → a < pow2 n → bit_and a (pow2 n - pow2 j) < pow2 n
prefix-lt n j a h p = rw (bit_and_prefix n j a h p) (omega (arith, shr_floor a j))

pub shr-prefix :
    (n j k a : ℕ) → j ≤ n → j ≤ k → a < pow2 n → shr (bit_and a (pow2 n - pow2 j)) k ≡ shr a k
shr-prefix n j k a h le p = rw (bit_and_prefix n j a h p) (shr_floor_above a j k le)

longest :
    (w : WordBits) (a b i t : ℕ)
    → a < pow2 (bits w)
    → b < pow2 (bits w)
    → get_elem? (tmasks w) i ≡ some t
    → bit_and a t ≡ bit_and b t
    → t ≤ mask_of w (diff (bits w) a b)
longest w a b i t p q e same =
    let (j, le, eq) = tmasks_entry w i t e in
    let r = leb-diff (bits w) j a b le p q in
    let f : (shr a j == shr b j) ≡ true =
      sym (prefix_eq (bits w) j a b le p q) ∙ (==_iff _ _).1 (rw eq at same) in
    let u = pow2_mono (diff (bits w) a b) j (leb→le _ _ (r ∙ f)) in rw eq (omega arith)

-- What `mask` promises: it is an entry of `Tmasks`, it is a common prefix of the two words, and
-- every entry of `Tmasks` that is a common prefix is at most it.
pub mask_contract :
    (w : WordBits) (a b : ℕ)
    → a < pow2 (bits w)
    → b < pow2 (bits w)
    → ((i : ℕ) × (i ≤ bits w) × (get_elem? (tmasks w) i ≡ some (mask w a b)))
      × (bit_and a (mask w a b) ≡ bit_and b (mask w a b))
      × ((i t : ℕ) → get_elem? (tmasks w) i ≡ some t → bit_and a t ≡ bit_and b t → t ≤ mask w a b)
mask_contract w a b p q =
    let d = diff (bits w) a b in
    let dn = diff-le (bits w) a b in
    rw (mask-mask_of w a b p q) (
      tmasks-mask_of w d dn,
      (==_iff _ _).0
          (prefix_eq (bits w) d a b dn p q ∙ sym (leb-diff (bits w) d a b dn p q) ∙ ground arith),
      λ i t e same. longest w a b i t p q e same,
    )
