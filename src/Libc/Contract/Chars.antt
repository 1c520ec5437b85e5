-- ===== src/Libc/Contract/Chars.antt =====
-- The contracts of share/libc/ctype.h. A function that classifies is a test, which stands for a
-- result that is not 0; `EOF` is the word of -1.
use frama_c_snapshot.Prelude.{
  ℕ, ◌+◌, ◌-◌, ◌≡◌, inl, inr, Bool, true, false, not, ◌&&◌, ◌||◌, ◌==◌, leb, arith, Bool-cases,
}
use frama_c_snapshot.Prelude.Bits.{pow2}
use frama_c_snapshot.Libc.Ctype.{
  isalnum, isalpha, isblank, isdigit, islower, isspace, isupper, isxdigit, tolower, toupper,
}

abbrev pub eof : ℕ
eof = pow2 32 - 1

-- `a <= c <= b`
abbrev pub within : ℕ → ℕ → ℕ → Bool
within a b c = leb a c && leb c b

-- the precondition `0 <= c <= 255 || c == EOF` of them all
abbrev pub c_uchar_or_eof : ℕ → Bool
c_uchar_or_eof c = within 0 255 c || c == eof

-- The assumptions of the two behaviors, `definitely_match` and `definitely_not_match`. Characters
-- for which neither holds depend on the locale.
pub record Behaviors : Type 0 where
  pub match : ℕ → Bool
  pub no_match : ℕ → Bool

abbrev pub isalnum_behaviors : Behaviors
isalnum_behaviors = record {
  match = λ c. within 65 90 c || within 97 122 c || within 48 57 c;
  no_match = λ c. c == eof || within 0 47 c || within 58 64 c || within 91 96 c || within 123 127 c;
}

abbrev pub isalpha_behaviors : Behaviors
isalpha_behaviors = record {
  match = λ c. within 65 90 c || within 97 122 c;
  no_match = λ c. c == eof || within 0 64 c || within 91 96 c || within 123 127 c;
}

abbrev pub isblank_behaviors : Behaviors
isblank_behaviors = record {
  match = λ c. c == 32 || c == 9;
  no_match = λ c. not (c == 32) && not (c == 9);
}

abbrev pub iscntrl_behaviors : Behaviors
iscntrl_behaviors = record {
  match = λ c. within 0 31 c || c == 127;
  no_match = λ c. c == eof || within 32 126 c;
}

abbrev pub isdigit_behaviors : Behaviors
isdigit_behaviors = record { match = λ c. within 48 57 c; no_match = λ c. not (within 48 57 c) }

abbrev pub isgraph_behaviors : Behaviors
isgraph_behaviors = record {
  match = λ c. within 33 126 c;
  no_match = λ c. c == eof || within 0 32 c || c == 127;
}

abbrev pub islower_behaviors : Behaviors
islower_behaviors = record {
  match = λ c. within 97 122 c;
  no_match = λ c. c == eof || within 0 96 c || within 123 126 c;
}

abbrev pub isprint_behaviors : Behaviors
isprint_behaviors = record {
  match = λ c. within 32 126 c;
  no_match = λ c. c == eof || within 0 31 c || c == 127;
}

abbrev pub ispunct_behaviors : Behaviors
ispunct_behaviors = record {
  match = λ c. within 33 47 c || within 58 64 c || within 91 96 c || within 123 126 c;
  no_match = λ c.
      c == eof || within 0 32 c || within 48 57 c || within 65 90 c || within 97 122 c || c == 127;
}

abbrev pub isspace_behaviors : Behaviors
isspace_behaviors = record {
  match = λ c. within 9 13 c || c == 32;
  no_match = λ c. c == eof || within 0 8 c || within 14 31 c || within 33 127 c;
}

abbrev pub isupper_behaviors : Behaviors
isupper_behaviors = record {
  match = λ c. within 65 90 c;
  no_match = λ c. c == eof || within 0 64 c || within 91 127 c;
}

abbrev pub isxdigit_behaviors : Behaviors
isxdigit_behaviors = record {
  match = λ c. within 48 57 c || within 65 70 c || within 97 102 c;
  no_match = λ c. not (within 48 57 c || within 65 70 c || within 97 102 c);
}

-- The postconditions `nonzero_result` and `zero_result` at one character.
abbrev pub Classifies : Behaviors → (ℕ → Bool) → ℕ → Type 0
Classifies b test c = (b.match c ≡ true → test c ≡ true) × (b.no_match c ≡ true → test c ≡ false)

-- `result_uchar_of_eof` and the two behaviors of `tolower`
abbrev pub Lowers : (ℕ → ℕ) → ℕ → Type 0
Lowers f c =
    (c_uchar_or_eof (f c) ≡ true)
    × (within 65 90 c ≡ true → f c ≡ c + 32)
    × ((c == eof || within 0 64 c || within 91 127 c) ≡ true → f c ≡ c)

-- the same for `toupper`
abbrev pub Raises : (ℕ → ℕ) → ℕ → Type 0
Raises f c =
    (c_uchar_or_eof (f c) ≡ true)
    × (within 97 122 c ≡ true → f c ≡ c - 32)
    × ((c == eof || within 0 96 c || within 123 127 c) ≡ true → f c ≡ c)

-- At every character and at `EOF`, seven of the tests do what their contracts say, and so do
-- `tolower` and `toupper`.
pub ctype-Classifies :
    (c : ℕ)
    → c_uchar_or_eof c ≡ true
    → Classifies isalnum_behaviors isalnum c
      × Classifies isalpha_behaviors isalpha c
      × Classifies isdigit_behaviors isdigit c
      × Classifies islower_behaviors islower c
      × Classifies isspace_behaviors isspace c
      × Classifies isupper_behaviors isupper c
      × Classifies isxdigit_behaviors isxdigit c
      × Lowers tolower c
      × Raises toupper c
unfolding isalnum isalpha isdigit islower isspace isupper isxdigit tolower toupper
ctype-Classifies c h = (
  ((λ p. ground arith), λ p. ground arith),
  ((λ p. ground arith), λ p. ground arith),
  ((λ p. ground arith), λ p. ground arith),
  ((λ p. ground arith), λ p. ground arith),
  ((λ p. ground arith), λ p. ground arith),
  ((λ p. ground arith), λ p. ground arith),
  ((λ p. ground arith), λ p. ground arith),
  (ground arith, (λ p. ground arith), λ p. ground arith),
  (ground arith, (λ p. ground arith), λ p. ground arith),
)

-- `isblank` does what its contract says exactly at the characters other than 10 to 13, the line
-- feed, the vertical tab, the form feed and the carriage return, which the code counts as blank.
pub isblank-Classifies :
    (c : ℕ)
    → (within 10 13 c ≡ false → Classifies isblank_behaviors isblank c)
      × (Classifies isblank_behaviors isblank c → within 10 13 c ≡ false)
unfolding isblank isspace
isblank-Classifies c = (
  (λ n. ((λ p. ground arith), λ p. ground arith)),
  λ (match, no_match). elim (Bool-cases (within 10 13 c)) [
    | inr e ↦ e
    | inl e ↦
        let blank : isblank c ≡ true = ground arith in
        let zero : isblank c ≡ false = no_match (ground arith) in cc
  ],
)
