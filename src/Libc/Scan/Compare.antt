-- ===== src/Libc/Scan/Compare.antt =====
-- What `strcmp`, `strncmp` and `strcasecmp` decide on strings.
use frama_c_snapshot.Prelude.{
  ℕ, ◌<◌, ◌≡◌, ◌≢◌, ◌↔◌, refl, ap, ◌∙◌, false, List, [], ◌∷◌, ◌==◌, arith, inl, inr, Bool-cases,
}
use frama_c_snapshot.Prelude.Run.{Run, ok}
use frama_c_snapshot.Libc.Bytes.{byte_diff}
use frama_c_snapshot.Libc.Scan.{strcmp}
use frama_c_snapshot.Libc.Scan.Length.{IsString, ended, more}

-- A call returns, and returns 0 exactly if a condition holds.
abbrev pub Decides : Run ℕ → Type 0 → Type 0
Decides m P = (r : ℕ) × (m ≡ ok r) × (r ≡ 0 ↔ P)

pub byte_diff-ne : (a b : ℕ) → a < 256 → b < 256 → (a == b) ≡ false → byte_diff a b ≢ 0
byte_diff-ne a b p q n = ground arith

-- the first characters of a list, and the rest of it
abbrev head_or : List ℕ → ℕ
head_or [] = 0
head_or (c ∷ cs) = c

abbrev rest_of : List ℕ → List ℕ
rest_of [] = []
rest_of (c ∷ cs) = cs

-- On two strings, `strcmp` returns, and returns 0 exactly if their characters are the same.
pub strcmp-Decides :
    {s cs t ds : List ℕ} → IsString s cs → IsString t ds → Decides (strcmp s t) (cs ≡ ds)
unfolding strcmp
strcmp-Decides ended ended = (0, refl, ((λ _. refl), λ _. refl))
strcmp-Decides ended (more {c = b} q v k) =
    let n : (0 == b) ≡ false = ground arith in
    (
      byte_diff 0 b,
      rw (strcmp, n) refl,
      (
        (λ z. absurd (byte_diff-ne 0 b (omega arith) v n z)),
        λ e. absurd (let z : 0 ≡ b = ap head_or e in ground arith),
      ),
    )
strcmp-Decides (more {c = a} p u h) ended = (
  byte_diff a 0,
  rw (strcmp, p) refl,
  (
    (λ z. absurd (byte_diff-ne a 0 u (omega arith) p z)),
    λ e. absurd (let z : a ≡ 0 = ap head_or e in ground arith),
  ),
)
strcmp-Decides (more {c = a} {cs = cs} p u h) (more {c = b} {cs = ds} q v k) =
    elim (Bool-cases (a == b)) [
      | inr n ↦ (
        byte_diff a b,
        rw (strcmp, n) refl,
        (
          (λ z. absurd (byte_diff-ne a b u v n z)),
          λ e. absurd (let z : a ≡ b = ap head_or e in ground arith),
        ),
      )
      | inl e ↦
          let (r, f, (i, j)) = strcmp-Decides h k in
          let same : a ≡ b = ground arith in
          (
            r,
            rw (strcmp, e, p) f,
            ((λ z. ap (◌∷◌ a) (i z) ∙ ap (λ (x : ℕ). x ∷ ds) same), λ z. j (ap rest_of z)),
          )
    ]
