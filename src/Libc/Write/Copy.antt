-- ===== src/Libc/Write/Copy.antt =====
-- The strings that `strcpy` and `strcat` make.
use frama_c_snapshot.Prelude.{
  ℕ, suc, ◌+◌, ◌<◌, ◌≡◌, refl, ap, false, Option, none, some, List, [], ◌∷◌, ◌++◌, ◌==◌, arith,
  length, get_elem?, set, inl, inr, Bool-cases,
}
use frama_c_snapshot.Prelude.Run.{Run, ok, fault, ◌>>=◌}
use frama_c_snapshot.Libc.Bytes.{write}
use frama_c_snapshot.Libc.Scan.Length.{IsString, ended, more, strlen-IsString}
use frama_c_snapshot.Libc.Write.{put_string, strcpy, strcat}

-- a write that may fail, and what is done behind it, one place further in a longer object
abbrev written : Option ℕ → List ℕ → Run (List ℕ)
written none cells = fault
written (some _) cells = ok cells

written-cons :
    (c : ℕ) (o : Option ℕ) (cells : List ℕ) (f g : List ℕ → Run (List ℕ))
    → f (c ∷ cells) ≡ (g cells >>= λ r. ok (c ∷ r))
    → (written o (c ∷ cells) >>= f) ≡ (written o cells >>= g >>= λ r. ok (c ∷ r))
written-cons c none cells f g e = refl
written-cons c (some _) cells f g e = e

write-written :
    (cells : List ℕ) (i v : ℕ) → write cells i v ≡ written (get_elem? cells i) (set cells i v)
write-written cells i v = same (get_elem? cells i)
  where
    same :
        (o : Option ℕ)
        → (elim o [ none ↦ fault | some _ ↦ ok (set cells i v) ]) ≡ written o (set cells i v)
    same none = refl
    same (some _) = refl

written-last :
    (c : ℕ) (o : Option ℕ) (cells : List ℕ)
    → written o (c ∷ cells) ≡ (written o cells >>= λ r. ok (c ∷ r))
written-last c none cells = refl
written-last c (some _) cells = refl

put_string-cons :
    (c i : ℕ) (cells src : List ℕ)
    → put_string (suc i) (c ∷ cells) src ≡ (put_string i cells src >>= λ r. ok (c ∷ r))
unfolding put_string
put_string-cons c i cells [] = refl
put_string-cons c i cells (d ∷ src) = elim (Bool-cases (d == 0)) [
  | inl e ↦
      rw (put_string, e, write-written (c ∷ cells) (suc i) 0, write-written cells i 0)
        (written-last c (get_elem? cells i) (set cells i 0))
  | inr e ↦
      rw (put_string, e, write-written (c ∷ cells) (suc i) d, write-written cells i d)
        (written-cons c (get_elem? cells i) (set cells i d) (λ r. put_string (suc i + 1) r src)
          (λ r. put_string (i + 1) r src)
          (let q : suc i + 1 ≡ suc (i + 1) = omega arith in
            rw q (put_string-cons c (i + 1) (set cells i d) src)))
]

-- A call returns an object of the same length that holds a string.
abbrev pub Makes : Run (List ℕ) → ℕ → List ℕ → Type 0
Makes m n cs = (out : List ℕ) × (m ≡ ok out) × IsString out cs × (length out ≡ n)

put_string-cons_Makes :
    {c : ℕ} {cs : List ℕ} (i : ℕ) (cells src : List ℕ)
    → (c == 0) ≡ false
    → c < 256
    → Makes (put_string i cells src) (length cells) cs
    → Makes (put_string (suc i) (c ∷ cells) src) (suc (length cells)) (c ∷ cs)
put_string-cons_Makes {c} i cells src p q (out, e, h, l) =
    (c ∷ out, rw (put_string-cons c i cells src, e) refl, more p q h, ap suc l)

-- Into an object with room for the characters and the terminator, `strcpy` of a string returns, and
-- the object then holds the string; its length is unchanged.
pub strcpy-Makes :
    {src cs : List ℕ} (dest : List ℕ)
    → IsString src cs
    → length cs < length dest
    → Makes (strcpy dest src) (length dest) cs
unfolding strcpy put_string
strcpy-Makes [] h r = absurd (omega arith)
strcpy-Makes (d ∷ dest) ended r = (0 ∷ dest, refl, ended, refl)
strcpy-Makes (d ∷ dest) (more {c = c} {s = s} p q h) r =
    let (out, e, h', l) = put_string-cons_Makes 0 dest s p q (strcpy-Makes dest h (omega arith)) in
    (out, rw (strcpy, put_string, p) e, h', l)

put_string-Makes :
    {dest src cs ds : List ℕ}
    → IsString dest cs
    → IsString src ds
    → length cs + length ds < length dest
    → Makes (put_string (length cs) dest src) (length dest) (cs ++ ds)
unfolding strcpy
put_string-Makes (ended {rest = rest}) h r = strcpy-Makes (0 ∷ rest) h (omega arith)
put_string-Makes {src = src} (more {s = s} {cs = cs} p q k) h r =
    put_string-cons_Makes (length cs) s src p q (put_string-Makes k h (omega arith))

-- Onto a string in an object with room for both strings and the terminator, `strcat` of a string
-- returns, and the object then holds the two strings one after the other; its length is unchanged.
pub strcat-Makes :
    {dest src cs ds : List ℕ}
    → IsString dest cs
    → IsString src ds
    → length cs + length ds < length dest
    → Makes (strcat dest src) (length dest) (cs ++ ds)
unfolding strcat
strcat-Makes k h r = let (e, _) = strlen-IsString 0 k in rw (strcat, e) (put_string-Makes k h r)
