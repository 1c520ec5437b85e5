-- ===== src/Libc/Number.antt =====
-- `abs` and `atoi` of share/libc/stdlib.c. An `int` is the word of its 32 bits; an operation that
-- overflows is a fault.
use frama_c_snapshot.Prelude.{
  ℕ, ◌+◌, ◌-◌, ◌*◌, ◌%◌, ◌≤◌, ◌<◌, ◌≡◌, refl, ap, ◌∙◌, Bool, true, false, List, [], ◌∷◌, ◌++◌, ◌==◌,
  leb, ltb, if◌then◌else◌, arith,
}
use frama_c_snapshot.Prelude.Bits.{pow2}
use frama_c_snapshot.Prelude.Run.{Run, ok, fault, ◌>>=◌}
use frama_c_snapshot.Libc.Ctype.{isdigit, isspace}

-- the word of an opposite
abbrev pub neg_int : ℕ → ℕ
neg_int v = (pow2 32 - v) % pow2 32

unfoldable pub abs : ℕ → Run ℕ
abs i = if ltb i (pow2 31) then ok i else if i == pow2 31 then fault else ok (neg_int i)

-- the loop of `atoi` over the digits, which keeps the opposite `-v` of the number so far
unfoldable pub read_digits : ℕ → List ℕ → Run ℕ
unfolding isdigit
read_digits v [] = fault
read_digits v (c ∷ p) =
    let rest = read_digits (v * 10 + (c - 48)) p in
    if isdigit c then (if leb (v * 10 + (c - 48)) (pow2 31) then rest else fault) else ok v

unfoldable pub skip_spaces : List ℕ → Run (List ℕ)
unfolding isspace
skip_spaces [] = fault
skip_spaces (c ∷ p) = let rest = skip_spaces p in if isspace c then rest else ok (c ∷ p)

-- the switch on the sign: whether it is `-`, and what follows
unfoldable pub take_sign : List ℕ → Bool × List ℕ
take_sign [] = (false, [])
take_sign (c ∷ p) = if c == 45 then (true, p) else if c == 43 then (false, p) else (false, c ∷ p)

-- the result from the opposite: `n` when the sign is `-`, else `-n`
unfoldable pub with_sign : Bool → ℕ → Run ℕ
with_sign true v = ok (neg_int v)
with_sign false v = if v == pow2 31 then fault else ok v

-- the part from the first digit on, where a character that is none gives 0
unfoldable pub read_number : Bool → List ℕ → Run ℕ
unfolding isdigit read_digits with_sign
read_number neg [] = fault
read_number neg (c ∷ p) = if isdigit c then (read_digits 0 (c ∷ p) >>= with_sign neg) else ok 0

unfoldable pub atoi : List ℕ → Run ℕ
unfolding isdigit skip_spaces take_sign read_number
atoi [] = fault
atoi (c ∷ p) =
    if isdigit c
    then read_number false (c ∷ p)
    else skip_spaces (c ∷ p) >>= λ rest.
        let (neg, number) = take_sign rest in read_number neg number

-- the number that decimal digits make, behind the number `v`
abbrev pub value_from : ℕ → List ℕ → ℕ
value_from v [] = v
value_from v (d ∷ ds) = value_from (v * 10 + d) ds

-- decimal digits as characters, each below 10
abbrev pub AreDigits : List ℕ → Type 0
AreDigits [] = Unit {0}
AreDigits (d ∷ ds) = (d < 10) × AreDigits ds

abbrev pub chars : List ℕ → List ℕ
chars [] = []
chars (d ∷ ds) = (48 + d) ∷ chars ds

value_from_le : (v : ℕ) (ds : List ℕ) → v ≤ value_from v ds
value_from_le v [] = omega arith
value_from_le v (d ∷ ds) = omega (arith, value_from_le (v * 10 + d) ds)

read_digits-value_from :
    (v : ℕ) (ds rest : List ℕ)
    → AreDigits ds
    → value_from v ds ≤ pow2 31
    → read_digits v (chars ds ++ (0 ∷ rest)) ≡ ok (value_from v ds)
unfolding read_digits isdigit
read_digits-value_from v [] rest a b = refl
read_digits-value_from v (d ∷ ds) rest (lt, a) b =
    let digit : (48 + d) - 48 ≡ d = omega arith in
    let low : leb 48 (48 + d) ≡ true = ground arith in
    let high : leb (48 + d) 57 ≡ true = ground arith in
    let fits : leb (v * 10 + d) (pow2 31) ≡ true =
      let le = value_from_le (v * 10 + d) ds in ground arith in
    rw (low, high, digit, fits) (read_digits-value_from (v * 10 + d) ds rest a b)

-- from a digit on, what the loop over the digits returns
read_number-read_digits :
    (neg : Bool) (c v : ℕ) (p : List ℕ)
    → isdigit c ≡ true
    → read_digits 0 (c ∷ p) ≡ ok v
    → read_number neg (c ∷ p) ≡ with_sign neg v
unfolding read_number
read_number-read_digits neg c v p digit number =
    ap (λ b. if b then (read_digits 0 (c ∷ p) >>= with_sign neg) else ok 0) digit
    ∙ ap (λ r. r >>= with_sign neg) number

atoi-isdigit : (c : ℕ) (p : List ℕ) → isdigit c ≡ true → atoi (c ∷ p) ≡ read_number false (c ∷ p)
unfolding atoi
atoi-isdigit c p digit = rw digit refl

isdigit-char : (d : ℕ) → d < 10 → isdigit (48 + d) ≡ true
unfolding isdigit
isdigit-char d lt =
    let low : leb 48 (48 + d) ≡ true = ground arith in
    let high : leb (48 + d) 57 ≡ true = ground arith in rw (low, high) refl

with_sign_small : (v : ℕ) → v < pow2 31 → with_sign false v ≡ ok v
unfolding with_sign
with_sign_small v lt = let small : (v == pow2 31) ≡ false = ground arith in rw small refl

-- `atoi` of the decimal digits of a number below 2^31, at least one, returns the number, whatever
-- follows the terminator.
pub atoi-value_from :
    (d : ℕ) (ds rest : List ℕ)
    → AreDigits (d ∷ ds)
    → value_from 0 (d ∷ ds) < pow2 31
    → atoi (chars (d ∷ ds) ++ (0 ∷ rest)) ≡ ok (value_from 0 (d ∷ ds))
atoi-value_from d ds rest (lt, a) b =
    let digit = isdigit-char d lt in
    let p = chars ds ++ (0 ∷ rest) in
    let v = value_from 0 (d ∷ ds) in
    let number = read_digits-value_from 0 (d ∷ ds) rest (lt, a) (omega arith) in
    atoi-isdigit (48 + d) p digit
    ∙ read_number-read_digits false (48 + d) v p digit number
    ∙ with_sign_small v b
