-- ===== src/Checked/Spaces/Strings.antt =====
-- What the loop of `valid_nstring` of e_acsl_libc_replacements.h finds in a string.
use frama_c_snapshot.Prelude.{
  ℕ, zero, suc, ◌+◌, ◌<◌, ◌≤◌, ◌≡◌, ◌≢◌, refl, ap, arith, inl, inr, ◌==◌, true, false, Bool-cases,
  ==_iff, none, some,
}
use frama_c_snapshot.Checked.Spaces.{scan, at_bound}

-- The first zero of a sequence, from `i` on, is at `j`, among the first `left` elements.
abbrev pub IsFirst : (ℕ → ℕ) → ℕ → ℕ → ℕ → Type 0
IsFirst element left i j =
    (i ≤ j) × (j < i + left) × (element j ≡ 0) × ((k : ℕ) → i ≤ k → k < j → element k ≢ 0)

pub scan-IsFirst :
    (element : ℕ → ℕ) (left i j : ℕ) → scan element none left i ≡ some j → IsFirst element left i j
unfolding scan at_bound
scan-IsFirst element zero i j e = absurd (ground arith)
scan-IsFirst element (suc left) i j e = elim (Bool-cases (element i == 0)) [
  | inl z ↦
      let same : i ≡ j = ground arith in
      let here : element i ≡ 0 = (==_iff (element i) 0).0 z in
      (omega arith, omega arith, rw (← same) here, λ k p q. absurd (omega arith))
  | inr z ↦
      let e' : scan element none left (i + 1) ≡ some j = ground arith in
      let (lo, hi, here, before) = scan-IsFirst element left (i + 1) j e' in
      (
        omega arith,
        omega arith,
        here,
        λ k p q. elim (Bool-cases (k == i)) [
          | inl s ↦
              let at : k ≡ i = (==_iff k i).0 s in λ f. absurd (let g = rw at at f in ground arith)
          | inr s ↦ before k (ground arith) q
        ],
      )
]

pub IsFirst-scan :
    (element : ℕ → ℕ) (left i j : ℕ) → IsFirst element left i j → scan element none left i ≡ some j
unfolding scan at_bound
IsFirst-scan element zero i j (lo, hi, here, before) = absurd (omega arith)
IsFirst-scan element (suc left) i j (lo, hi, here, before) = elim (Bool-cases (i == j)) [
  | inl s ↦
      let at : i ≡ j = (==_iff i j).0 s in
      let z : (element i == 0) ≡ true = (==_iff (element i) 0).1 (rw at here) in
      rw (scan, z) (ap some at)
  | inr s ↦
      let z : (element i == 0) ≡ false =
        nonzero (element i) (before i (omega arith) (ground arith)) in
      let rest =
        IsFirst-scan element left (i + 1) j
          (ground arith, omega arith, here, λ k p q. before k (omega arith) q) in
      rw (scan, z, rest) refl
]
  where
    nonzero : (v : ℕ) → v ≢ 0 → (v == 0) ≡ false
    nonzero v n = ground arith
