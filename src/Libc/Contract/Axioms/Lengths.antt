-- ===== src/Libc/Contract/Axioms/Lengths.antt =====
-- The axioms on `strlen` and `wcslen` hold of the code: a function that returns the place of the
-- first terminator meets them all.
use frama_c_snapshot.Prelude.{
  ℕ, zero, suc, ◌+◌, ◌-◌, ◌≤◌, ◌<◌, ◌≡◌, ◌≢◌, refl, sym, ap, ◌∙◌, false, Option, none, some, List,
  [], ◌∷◌, ◌==◌, ltb, arith, inl, inr, Bool-cases, Option-cases, get_or, drop,
}
use mathlib.Core.Path.{subst}
use frama_c_snapshot.Prelude.Run.{Run, ok, abort, fault, ◌>>=◌}
use frama_c_snapshot.Libc.Scan.{strlen}
use frama_c_snapshot.Libc.Wide.{wcslen}
use frama_c_snapshot.Libc.Contract.Axioms.{StrLen, MemcmpStrlenEnded, MemcmpZero}

module _ {S : Type 0} (at : S → ℕ → ℕ) where
  -- the first place with a terminator, or that there is none
  abbrev FirstNul : S → Option ℕ → Type 0
  FirstNul s none = (i : ℕ) → at s i ≢ 0
  FirstNul s (some n) = (at s n ≡ 0) × ((j : ℕ) → j < n → at s j ≢ 0)

  FirstNul_unique : (s : S) (o p : Option ℕ) → FirstNul s o → FirstNul s p → o ≡ p
  FirstNul_unique s none none h k = refl
  FirstNul_unique s none (some n) h k = absurd (h n k.0)
  FirstNul_unique s (some m) none h k = absurd (k m h.0)
  FirstNul_unique s (some m) (some n) h k = elim (Bool-cases (ltb m n)) [
    | inl lt ↦ absurd (k.1 m (ground arith) h.0)
    | inr ge ↦ elim (Bool-cases (ltb n m)) [
      | inl gt ↦ absurd (h.1 n (ground arith) k.0)
      | inr le ↦ ap some (ground arith)
    ]
  ]

  module _ (shift : S → ℕ → S) (at-shift : (s : S) (k i : ℕ) → at (shift s k) i ≡ at s (k + i))
      (strlen_of : S → Option ℕ) (finds : (s : S) → FirstNul s (strlen_of s)) where
    found : (s : S) (n : ℕ) → strlen_of s ≡ some n → FirstNul s (some n)
    found s n e = subst (FirstNul s) e (finds s)

    is_first : (s : S) (o : Option ℕ) → FirstNul s o → strlen_of s ≡ o
    is_first s o h = FirstNul_unique s (strlen_of s) o (finds s) h

    no_zero : (s : S) (i n : ℕ) → strlen_of s ≡ some n → i ≤ n → at s i ≢ 0 → i < n
    no_zero s i n e le ne = elim (Bool-cases (i == n)) [
      | inl same ↦ let q : i ≡ n = ground arith in absurd (ne (ap (at s) q ∙ (found s n e).0))
      | inr other ↦ ground arith
    ]

    the_zero : (s : S) (i n : ℕ) → strlen_of s ≡ some n → i ≤ n → at s i ≡ 0 → i ≡ n
    the_zero s i n e le z = elim (Bool-cases (ltb i n)) [
      | inl lt ↦ absurd ((found s n e).1 i (ground arith) z)
      | inr ge ↦ ground arith
    ]

    at_most : (s : S) (i : ℕ) → at s i ≡ 0 → (n : ℕ) × (strlen_of s ≡ some n) × (n ≤ i)
    at_most s i z = elim (Option-cases (strlen_of s)) [
      | inl e ↦ absurd (subst (FirstNul s) e (finds s) i z)
      | inr (n, e) ↦ elim (Bool-cases (ltb i n)) [
        | inl lt ↦ absurd ((found s n e).1 i (ground arith) z)
        | inr ge ↦ (n, e, ground arith)
      ]
    ]

    shifted :
        (s : S) (i n : ℕ) → strlen_of s ≡ some n → i ≤ n → strlen_of (shift s i) ≡ some (n - i)
    shifted s i n e le =
        let q : i + (n - i) ≡ n = omega arith in
        is_first (shift s i) (some (n - i)) (
          at-shift s i (n - i) ∙ ap (at s) q ∙ (found s n e).0,
          λ j lt z. (found s n e).1 (i + j) (omega arith) (sym (at-shift s i j) ∙ z),
        )

    at_most_shifted :
        (s : S) (i k : ℕ)
        → k ≤ i
        → at s i ≡ 0
        → (n : ℕ) × (strlen_of (shift s k) ≡ some n) × (n ≤ i - k)
    at_most_shifted s i k le z =
        let q : k + (i - k) ≡ i = omega arith in
        at_most (shift s k) (i - k) (at-shift s k (i - k) ∙ ap (at s) q ∙ z)

    pub first-StrLen : StrLen at shift strlen_of
    first-StrLen = record {
      strlen_pos_or_null = λ s i before z. is_first s (some i) (z, before);
      strlen_neg = λ s h. is_first s none h;
      strlen_before_null = λ s i n e. (found s n e).1 i;
      strlen_at_null = λ s n e. (found s n e).0;
      strlen_not_zero = no_zero;
      strlen_zero = the_zero;
      strlen_sup = at_most;
      strlen_shift = shifted;
      strlen_create = at_most;
      strlen_create_shift = at_most_shifted;
    }

    -- where the first `n` bytes agree, a terminator among them is the first one of both
    agree :
        (s1 s2 : S) (n k : ℕ)
        → MemcmpZero at shift s1 s2 n
        → strlen_of s1 ≡ some k
        → k < n
        → strlen_of s2 ≡ some k
    agree s1 s2 n k same e lt = is_first s2 (some k) (
      sym (same k lt) ∙ (found s1 k e).0,
      λ j below z. (found s1 k e).1 j below (same j (omega arith) ∙ z),
    )

    pub first-MemcmpStrlenEnded : MemcmpStrlenEnded at shift strlen_of
    first-MemcmpStrlenEnded = record {
      left = λ s1 s2 n k same e lt. e ∙ sym (agree s1 s2 n k same e lt);
      right = λ s1 s2 n k same e lt. agree s2 s1 n k (λ i h. sym (same i h)) e lt ∙ sym e;
      shift_left = λ s1 s2 n k l same e lt.
          at_most s2 (k + l) (sym (at-shift s2 k l) ∙ sym (same l lt) ∙ (found s1 l e).0);
      shift_right = λ s1 s2 n k l same e lt.
          at_most s1 (k + l) (sym (at-shift s1 k l) ∙ same l lt ∙ (found s2 l e).0);
    }

-- `s[i]`, where the bytes behind an object are not 0
abbrev pub byte_at : List ℕ → ℕ → ℕ
byte_at s i = get_or s i 1

abbrev pub shift : List ℕ → ℕ → List ℕ
shift s k = drop k s

byte_at-shift : (s : List ℕ) (k i : ℕ) → byte_at (shift s k) i ≡ byte_at s (k + i)
byte_at-shift s zero i = ap (byte_at s) (omega arith)
byte_at-shift [] (suc k) i = refl
byte_at-shift (c ∷ s) (suc k) i =
    let q : suc k + i ≡ suc (k + i) = omega arith in rw q (byte_at-shift s k i)

-- the logic functions that the code computes: negative where the call has no result
abbrev pub result {ℓ} : {A : Type ℓ} → Run A → Option A
result (ok n) = some n
result abort = none
result fault = none

strlen_step :
    (c : ℕ) (s : List ℕ) (r : Run ℕ)
    → (c == 0) ≡ false
    → FirstNul byte_at s (result r)
    → FirstNul byte_at (c ∷ s) (result (r >>= λ n. ok (suc n)))
strlen_step c s (ok n) e (z, before) = (z, later)
  where
    later : (j : ℕ) → j < suc n → byte_at (c ∷ s) j ≢ 0
    later zero h q = ground arith
    later (suc j) h q = before j (omega arith) q
strlen_step c s abort e h = later
  where
    later : (j : ℕ) → byte_at (c ∷ s) j ≢ 0
    later zero q = ground arith
    later (suc j) q = h j q
strlen_step c s fault e h = later
  where
    later : (j : ℕ) → byte_at (c ∷ s) j ≢ 0
    later zero q = ground arith
    later (suc j) q = h j q

strlen-FirstNul : (s : List ℕ) → FirstNul byte_at s (result (strlen s))
unfolding strlen
strlen-FirstNul [] = λ i e. absurd (omega arith)
strlen-FirstNul (c ∷ s) = elim (Bool-cases (c == 0)) [
  | inl e ↦ rw (strlen, e) (ground arith, λ j h. absurd (omega arith))
  | inr e ↦ rw (strlen, e) (strlen_step c s (strlen s) e (strlen-FirstNul s))
]

-- `strlen` and `wcslen` satisfy the axioms that are on the logic functions with their names alone, on
-- every object. `strlen` also satisfies the four axioms that relate it to `memcmp` where the length
-- that they compare with `n` is not negative; the axioms themselves lack that premise.
pub strlen-StrLen :
    StrLen byte_at shift (λ s. result (strlen s))
    × MemcmpStrlenEnded byte_at shift (λ s. result (strlen s))
    × StrLen byte_at shift (λ s. result (wcslen s))
unfolding wcslen
strlen-StrLen = (
  first-StrLen byte_at shift byte_at-shift (λ s. result (strlen s)) strlen-FirstNul,
  first-MemcmpStrlenEnded byte_at shift byte_at-shift (λ s. result (strlen s)) strlen-FirstNul,
  first-StrLen byte_at shift byte_at-shift (λ s. result (strlen s)) strlen-FirstNul,
)
