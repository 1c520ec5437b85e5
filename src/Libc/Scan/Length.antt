-- ===== src/Libc/Scan/Length.antt =====
-- The strings that an object holds, and what `strlen`, `strnlen` and `strchr` find in them.
use frama_c_snapshot.Prelude.{
  ℕ, zero, suc, ◌+◌, ◌%◌, ◌<◌, ◌≡◌, refl, ap, false, Option, none, some, List, [], ◌∷◌, ◌==◌, arith,
  length, min, if◌then◌else◌, inl, inr, Bool-cases,
}
use frama_c_snapshot.Prelude.Run.{ok}
use frama_c_snapshot.Libc.Scan.{strlen, strnlen, strchr, strchr_from}

-- The bytes `s`, below 256, begin with the string of the characters `cs` and its terminator.
pub data IsString : List ℕ → List ℕ → Type 0 where
  ended : {rest : List ℕ} → IsString (0 ∷ rest) []
  more :
      {c : ℕ} {s cs : List ℕ}
      → (c == 0) ≡ false
      → c < 256
      → IsString s cs
      → IsString (c ∷ s) (c ∷ cs)

-- On a string, `strlen` returns the number of its characters, and `strnlen` the smaller one of this
-- number and the bound.
pub strlen-IsString :
    {s cs : List ℕ} (n : ℕ)
    → IsString s cs
    → (strlen s ≡ ok (length cs)) × (strnlen s n ≡ ok (min n (length cs)))
unfolding strlen strnlen
strlen-IsString zero ended = (refl, refl)
strlen-IsString (suc n) ended = (refl, ap ok (omega arith))
strlen-IsString zero (more p _ h) =
    let (e, _) = strlen-IsString zero h in (rw (strlen, p, e) refl, ap ok (omega arith))
strlen-IsString (suc n) (more p _ h) =
    let (e, f) = strlen-IsString n h in
    (rw (strlen, p, e) refl, rw (strnlen, p, f) (ap ok (omega arith)))

-- The offset of the first one of the characters that is `ch`, counted from `i`.
abbrev pub first_at : ℕ → ℕ → List ℕ → Option ℕ
first_at i ch [] = if ch == 0 then some i else none
first_at i ch (c ∷ cs) = if c == ch then some i else first_at (i + 1) ch cs

strchr_from-IsString :
    {s cs : List ℕ} (i ch : ℕ) → IsString s cs → strchr_from i s ch ≡ ok (first_at i ch cs)
unfolding strchr_from
strchr_from-IsString i ch ended = ground arith
strchr_from-IsString i ch (more {c = c} p _ h) = elim (Bool-cases (c == ch)) [
  | inl e ↦ rw (strchr_from, e) refl
  | inr e ↦ rw (strchr_from, e, p) (strchr_from-IsString (i + 1) ch h)
]

-- On a string, `strchr` returns the offset of the first character that is the argument's lowest
-- byte, the terminator included, and NULL if there is none.
pub strchr-first_at :
    {s cs : List ℕ} (c : ℕ) → IsString s cs → strchr s c ≡ ok (first_at 0 (c % 256) cs)
unfolding strchr
strchr-first_at c h = strchr_from-IsString 0 (c % 256) h
