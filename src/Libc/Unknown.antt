-- ===== src/Libc/Unknown.antt =====
-- The functions of share/libc/ctype.c whose result the analysis does not know: `iscntrl`,
-- `isgraph`, `isprint` and `ispunct`.
use frama_c_snapshot.Prelude.{ℕ, Bool, true, false, if◌then◌else◌, inl, inr, refl}
use frama_c_snapshot.Libc.Entropy.{Entropy, frama_c_nondet}
use frama_c_snapshot.Libc.Entropy.Bounds.{CanReturn, frama_c_nondet-AOrB}
use frama_c_snapshot.Libc.Contract.Chars.{
  Behaviors, iscntrl_behaviors, isgraph_behaviors, isprint_behaviors, ispunct_behaviors,
}

unfoldable pub iscntrl : ℕ → Entropy → ℕ × Entropy
iscntrl c e = frama_c_nondet 0 1 e

unfoldable pub isgraph : ℕ → Entropy → ℕ × Entropy
isgraph c e = frama_c_nondet 0 1 e

unfoldable pub isprint : ℕ → Entropy → ℕ × Entropy
isprint c e = frama_c_nondet 0 1 e

unfoldable pub ispunct : ℕ → Entropy → ℕ × Entropy
ispunct c e = frama_c_nondet 0 1 e

-- A run that returns what the contract excludes for the character.
abbrev pub Violates : Behaviors → (ℕ → Entropy → ℕ × Entropy) → ℕ → Type 0
Violates b f c = CanReturn {A = ℕ} (f c) (if b.match c then 0 else 1)

-- For every character, each of the four functions has a run whose result the contract in ctype.h
-- excludes, where the contract says something of the character.
pub unknown-Violates :
    (c : ℕ)
    → Violates iscntrl_behaviors iscntrl c
      × Violates isgraph_behaviors isgraph c
      × Violates isprint_behaviors isprint c
      × Violates ispunct_behaviors ispunct c
unfolding iscntrl isgraph isprint ispunct
unknown-Violates c = (
  either (iscntrl_behaviors.match c),
  either (isgraph_behaviors.match c),
  either (isprint_behaviors.match c),
  either (ispunct_behaviors.match c),
)
  where
    either : (b : Bool) → CanReturn {A = ℕ} (frama_c_nondet 0 1) (if b then 0 else 1)
    either true = (frama_c_nondet-AOrB 0 1 0).1 (inl refl)
    either false = (frama_c_nondet-AOrB 0 1 1).1 (inr refl)
