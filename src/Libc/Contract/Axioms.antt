-- ===== src/Libc/Contract/Axioms.antt =====
-- The axioms of share/libc/__fc_string_axiomatic.h, on the logic functions that the contracts of
-- string.h and wchar.h are written with. Where a logic function is negative, the model has `none`.
pub mod Lengths
use frama_c_snapshot.Prelude.{
  ℕ, zero, suc, ◌+◌, ◌-◌, ◌≤◌, ◌<◌, ◌≡◌, ◌≢◌, ◌⊎◌, ◌↔◌, refl, Bool, true, false, Option, none, some,
  arith,
}

-- A memory from a pointer `s` on: `at s i` is `s[i]`, and `shift s i` is `s + i`.
module _ {S : Type 0} (at : S → ℕ → ℕ) (shift : S → ℕ → S) where
  -- What `memcmp{L1,L2}(s1,s2,n) == 0` stands for, by `memcmp_zero`
  abbrev pub MemcmpZero : S → S → ℕ → Type 0
  MemcmpZero s1 s2 n = (i : ℕ) → i < n → at s1 i ≡ at s2 i

  -- `memchr_def`
  abbrev pub Memchr : S → ℕ → ℕ → Type 0
  Memchr s c n = (i : ℕ) × (i < n) × (at s i ≡ c)

  -- `memset_def`
  abbrev pub Memset : S → ℕ → ℕ → Type 0
  Memset s c n = (i : ℕ) → i < n → at s i ≡ c

  -- The axioms on `strlen` alone.
  pub record StrLen (strlen : S → Option ℕ) : Type 0 where
    pub strlen_pos_or_null :
        (s : S) (i : ℕ) → ((j : ℕ) → j < i → at s j ≢ 0) → at s i ≡ 0 → strlen s ≡ some i
    pub strlen_neg : (s : S) → ((i : ℕ) → at s i ≢ 0) → strlen s ≡ none
    pub strlen_before_null : (s : S) (i n : ℕ) → strlen s ≡ some n → i < n → at s i ≢ 0
    pub strlen_at_null : (s : S) (n : ℕ) → strlen s ≡ some n → at s n ≡ 0
    pub strlen_not_zero : (s : S) (i n : ℕ) → strlen s ≡ some n → i ≤ n → at s i ≢ 0 → i < n
    pub strlen_zero : (s : S) (i n : ℕ) → strlen s ≡ some n → i ≤ n → at s i ≡ 0 → i ≡ n
    pub strlen_sup : (s : S) (i : ℕ) → at s i ≡ 0 → (n : ℕ) × (strlen s ≡ some n) × (n ≤ i)
    pub strlen_shift :
        (s : S) (i n : ℕ) → strlen s ≡ some n → i ≤ n → strlen (shift s i) ≡ some (n - i)
    pub strlen_create : (s : S) (i : ℕ) → at s i ≡ 0 → (n : ℕ) × (strlen s ≡ some n) × (n ≤ i)
    pub strlen_create_shift :
        (s : S) (i k : ℕ)
        → k ≤ i
        → at s i ≡ 0
        → (n : ℕ) × (strlen (shift s k) ≡ some n) × (n ≤ i - k)

  -- `strlen(s) < n`, which holds of every negative `strlen(s)`
  abbrev pub IsBelow : Option ℕ → ℕ → Type 0
  IsBelow none n = Unit {0}
  IsBelow (some k) n = k < n

  -- The axioms `memcmp_strlen_left` and `memcmp_strlen_right` as they stand in the source.
  abbrev pub MemcmpStrlenLeft : (S → Option ℕ) → Type 0
  MemcmpStrlenLeft strlen =
      (s1 s2 : S) (n : ℕ) → MemcmpZero s1 s2 n → IsBelow (strlen s1) n → strlen s1 ≡ strlen s2

  abbrev pub MemcmpStrlenRight : (S → Option ℕ) → Type 0
  MemcmpStrlenRight strlen =
      (s1 s2 : S) (n : ℕ) → MemcmpZero s1 s2 n → IsBelow (strlen s2) n → strlen s1 ≡ strlen s2

  -- The two axioms and their shifted variants, with the premise that the source lacks: that the
  -- `strlen` on the left of the comparison is not negative.
  pub record MemcmpStrlenEnded (strlen : S → Option ℕ) : Type 0 where
    pub left :
        (s1 s2 : S) (n k : ℕ)
        → MemcmpZero s1 s2 n
        → strlen s1 ≡ some k
        → k < n
        → strlen s1 ≡ strlen s2
    pub right :
        (s1 s2 : S) (n k : ℕ)
        → MemcmpZero s1 s2 n
        → strlen s2 ≡ some k
        → k < n
        → strlen s1 ≡ strlen s2
    pub shift_left :
        (s1 s2 : S) (n k l : ℕ)
        → MemcmpZero s1 (shift s2 k) n
        → strlen s1 ≡ some l
        → l < n
        → (m : ℕ) × (strlen s2 ≡ some m) × (m ≤ k + l)
    pub shift_right :
        (s1 s2 : S) (n k l : ℕ)
        → MemcmpZero (shift s1 k) s2 n
        → strlen s2 ≡ some l
        → l < n
        → (m : ℕ) × (strlen s1 ≡ some m) × (m ≤ k + l)

  -- Two strings of which one has no terminator: `memcmp_strlen_left` at no characters makes all
  -- lengths the same.
  left_apart :
      (strlen : S → Option ℕ) (s1 s2 : S)
      → StrLen strlen
      → ((i : ℕ) → at s1 i ≢ 0)
      → at s2 0 ≡ 0
      → ¬ MemcmpStrlenLeft strlen
  left_apart strlen s1 s2 laws endless ended left =
      let a : strlen s1 ≡ none = laws.strlen_neg s1 endless in
      let b : strlen s2 ≡ some 0 =
        laws.strlen_pos_or_null s2 0 (λ j h. absurd (omega arith)) ended in
      let below : IsBelow (strlen s1) 0 = rw a tt in
      let same = left s1 s2 0 (λ i h. absurd (omega arith)) below in cc

-- On memories that give every byte, no function satisfies the axioms of `strlen` together with
-- `memcmp_strlen_left`.
pub MemcmpStrlenLeft-inconsistent : ¬ (
    (strlen : (ℕ → ℕ) → Option ℕ) × StrLen (λ s i. s i) (λ s i j. s (i + j)) strlen
    × MemcmpStrlenLeft (λ s i. s i) (λ s i j. s (i + j)) strlen)
MemcmpStrlenLeft-inconsistent (strlen, laws, left) =
    left_apart (λ s i. s i) (λ s i j. s (i + j)) strlen (λ _. 1) (λ _. 0) laws
      (λ i e. absurd (omega arith)) refl left
