-- ===== src/Mmodel/Alloc/Power.antt =====
-- `powof2` decides whether a word is a power of 2.
use frama_c_snapshot.Prelude.{
  ℕ, zero, suc, ◌/◌, ◌%◌, ◌<◌, ◌≤◌, ◌≡◌, ◌↔◌, refl, Bool, true, ◌==◌, ltb, arith, bit_and, inl, inr,
  Bool-cases,
}
use frama_c_snapshot.Prelude.Bits.{pow2, pow2_pos, bit_and_step}
use frama_c_snapshot.Prelude.Run.{ok}
use frama_c_snapshot.Mmodel.Alloc.{halve_even, powof2}

nothing_and : (n y : ℕ) → y ≤ n → bit_and y 0 ≡ 0
nothing_and zero y p = let e : y ≡ 0 = omega arith in rw e refl
nothing_and (suc n) y p = elim (Bool-cases (y == 0)) [
  | inl e ↦ let q : y ≡ 0 = ground arith in rw q refl
  | inr e ↦ omega (arith, bit_and_step y 0, nothing_and n (y / 2) (ground arith))
]

bit_and-one : (x : ℕ) → bit_and x 1 ≡ x % 2
bit_and-one x = omega (arith, bit_and_step x 1, nothing_and (x / 2) (x / 2) (omega arith))

-- a power of 2
abbrev pub IsPower : ℕ → Type 0
IsPower x = (k : ℕ) × (x ≡ pow2 k)

IsPower-odd : (x k : ℕ) → (x % 2 ≡ 1) → x ≡ pow2 k → x ≡ 1
IsPower-odd x zero o e = e
IsPower-odd x (suc k) o e = absurd (omega arith)

IsPower-small : (x k : ℕ) → x ≤ 1 → x ≡ pow2 k → x ≡ 1
IsPower-small x k p e = omega (arith, pow2_pos k)

IsPower-half : (x k : ℕ) → 1 < x → x ≡ pow2 k → IsPower (x / 2)
IsPower-half x zero p e = absurd (omega arith)
IsPower-half x (suc k) p e = (k, omega arith)

halve_even-IsPower :
    (fuel x : ℕ) → x < fuel → (odd : ℕ) × (halve_even fuel x ≡ ok odd) × (odd ≡ 1 ↔ IsPower x)
unfolding halve_even
halve_even-IsPower zero x p = absurd (omega arith)
halve_even-IsPower (suc fuel) x p = elim (Bool-cases (bit_and x 1 == 0)) [
  | inr e ↦
      let o : x % 2 ≡ 1 = ground (arith, bit_and-one x) in
      (x, rw (halve_even, e) refl, ((λ q. (0, q)), λ (k, q). IsPower-odd x k o q))
  | inl e ↦ elim (Bool-cases (ltb 1 x)) [
    | inr f ↦ (
      x,
      rw (halve_even, e, f) refl,
      ((λ q. (0, q)), λ (k, q). IsPower-small x k (ground arith) q),
    )
    | inl f ↦
        let even : x % 2 ≡ 0 = ground (arith, bit_and-one x) in
        let big : 1 < x = ground arith in
        let (odd, h, (i, j)) = halve_even-IsPower fuel (x / 2) (omega arith) in
        (
          odd,
          rw (halve_even, e, f) h,
          ((λ q. let (k, r) = i q in (suc k, omega arith)), λ (k, q). j (IsPower-half x k big q)),
        )
  ]
]

-- `powof2` returns for every number, and returns true exactly for the powers of 2.
pub powof2-IsPower : (x : ℕ) → (b : Bool) × (powof2 x ≡ ok b) × (b ≡ true ↔ IsPower x)
unfolding powof2
powof2-IsPower x =
    let (odd, h, (i, j)) = halve_even-IsPower (suc x) x (omega arith) in
    (odd == 1, rw (powof2, h) refl, ((λ q. i (ground arith)), λ q. let o = j q in ground arith))
