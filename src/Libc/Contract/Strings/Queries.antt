-- ===== src/Libc/Contract/Strings/Queries.antt =====
-- The functions of string.c that read strings meet their contracts.
use frama_c_snapshot.Prelude.{
  ℕ, zero, suc, ◌≤◌, ◌<◌, ◌≡◌, ◌≢◌, ◌⊎◌, ◌↔◌, refl, ap, true, false, List, [], ◌∷◌, ◌==◌, arith,
  inl, inr, Bool-cases, length,
}
use frama_c_snapshot.Libc.Bytes.{byte_diff}
use frama_c_snapshot.Libc.Scan.{strlen, strnlen, strcmp, strncmp}
use frama_c_snapshot.Libc.Scan.Length.{IsString, ended, more, strlen-IsString}
use frama_c_snapshot.Libc.Scan.Compare.{byte_diff-ne}
use frama_c_snapshot.Libc.Contract.Axioms.{MemcmpZero}
use frama_c_snapshot.Libc.Contract.Axioms.Lengths.{byte_at, shift}
use frama_c_snapshot.Libc.Contract.Strings.{
  HasStrlen, StrcmpZero, IsNstring, StrlenContract, StrnlenContract, StrcmpContract,
  StrncmpContract,
}
use frama_c_snapshot.Libc.Contract.Strings.Blocks.{tail-AreBytes, MemcmpZero-cons}

pub HasStrlen-cons :
    (c n : ℕ) (s : List ℕ) → (c == 0) ≡ false → HasStrlen s n → HasStrlen (c ∷ s) (suc n)
HasStrlen-cons c n s e (z, before) = (z, later)
  where
    later : (i : ℕ) → i < suc n → byte_at (c ∷ s) i ≢ 0
    later zero h q = ground arith
    later (suc i) h q = before i (omega arith) q

pub HasStrlen-zero : (s : List ℕ) → HasStrlen (0 ∷ s) 0
HasStrlen-zero s = (refl, λ i h. absurd (omega arith))

pub IsString-HasStrlen : {s cs : List ℕ} → IsString s cs → HasStrlen s (length cs)
IsString-HasStrlen (ended {rest = rest}) = HasStrlen-zero rest
IsString-HasStrlen (more {c = c} {s = s} {cs = cs} p b h) =
    HasStrlen-cons c (length cs) s p (IsString-HasStrlen h)

strlen-StrlenContract : StrlenContract strlen
strlen-StrlenContract s cs h = (length cs, (strlen-IsString 0 h).0, IsString-HasStrlen h)

no-IsString : {cs : List ℕ} → ¬ IsString [] cs
no-IsString h = elim h [ ]

IsString-tail :
    {c : ℕ} {s cs : List ℕ} → (c == 0) ≡ false → IsString (c ∷ s) cs → (ds : List ℕ) × IsString s ds
IsString-tail e ended = cc
IsString-tail e (more {cs = ds} p b h) = (ds, h)

IsNstring-tail :
    (c n : ℕ) (s : List ℕ) → (c == 0) ≡ false → IsNstring (c ∷ s) (suc n) → IsNstring s n
IsNstring-tail c n s e (inl h) = inl (omega arith)
IsNstring-tail c n s e (inr (cs, h)) = inr (IsString-tail e h)

strnlen-StrnlenContract : StrnlenContract strnlen
unfolding strnlen
strnlen-StrnlenContract s zero h = (0, refl, inr refl)
strnlen-StrnlenContract [] (suc n) (inl h) = absurd (omega arith)
strnlen-StrnlenContract [] (suc n) (inr (cs, h)) = absurd (no-IsString h)
strnlen-StrnlenContract (c ∷ s) (suc n) h = elim (Bool-cases (c == 0)) [
  | inl e ↦ (0, rw (strnlen, e) refl, inl (ground arith, λ i lt. absurd (omega arith)))
  | inr e ↦
      let (r, f, o) = strnlen-StrnlenContract s n (IsNstring-tail c n s e h) in
      (
        suc r,
        rw (strnlen, e, f) refl,
        elim o [ inl z ↦ inl (HasStrlen-cons c r s e z) | inr z ↦ inr (ap suc z) ],
      )
]

-- two strings that begin with the same character other than the terminator
StrcmpZero-cons :
    (a b : ℕ) (s1 s2 : List ℕ)
    → (a == b) ≡ true
    → (a == 0) ≡ false
    → ((n : ℕ) × StrcmpZero s1 s2 n) ↔ ((n : ℕ) × StrcmpZero (a ∷ s1) (b ∷ s2) n)
StrcmpZero-cons a b s1 s2 same e = (to, from)
  where
    other : (b == 0) ≡ false
    other = ground arith

    to : ((n : ℕ) × StrcmpZero s1 s2 n) → ((n : ℕ) × StrcmpZero (a ∷ s1) (b ∷ s2) n)
    to (n, (h1, h2, eq)) =
        (suc n, (HasStrlen-cons a n s1 e h1, HasStrlen-cons b n s2 other h2, all))
      where
        all : (i : ℕ) → i ≤ suc n → byte_at (a ∷ s1) i ≡ byte_at (b ∷ s2) i
        all zero le = ground arith
        all (suc i) le = eq i (omega arith)

    from : ((n : ℕ) × StrcmpZero (a ∷ s1) (b ∷ s2) n) → ((n : ℕ) × StrcmpZero s1 s2 n)
    from (zero, ((z, _), h2, eq)) = absurd (ground arith)
    from (suc n, ((z1, b1), (z2, b2), eq)) = (
      n,
      (
        (z1, λ i lt. b1 (suc i) (omega arith)),
        (z2, λ i lt. b2 (suc i) (omega arith)),
        λ i le. eq (suc i) (omega arith),
      ),
    )

-- Two strings whose first characters differ.
StrcmpZero-differ :
    (a b : ℕ) (s1 s2 : List ℕ) → (a == b) ≡ false → ¬ ((n : ℕ) × StrcmpZero (a ∷ s1) (b ∷ s2) n)
StrcmpZero-differ a b s1 s2 ne (n, (h1, h2, eq)) =
    let same : a ≡ b = eq 0 (omega arith) in ground arith

StrcmpZero-ended :
    (a b : ℕ) (s1 s2 : List ℕ) → (a == b) ≡ true → (a == 0) ≡ true → StrcmpZero (a ∷ s1) (b ∷ s2) 0
StrcmpZero-ended a b s1 s2 same e = (
  (ground arith, λ i h. absurd (omega arith)),
  (ground arith, λ i h. absurd (omega arith)),
  first,
)
  where
    first : (i : ℕ) → i ≤ 0 → byte_at (a ∷ s1) i ≡ byte_at (b ∷ s2) i
    first zero le = ground arith
    first (suc i) le = absurd (omega arith)

head_byte : {c : ℕ} {s cs : List ℕ} → IsString (c ∷ s) cs → c < 256
head_byte ended = omega arith
head_byte (more p b h) = b

strcmp-StrcmpContract : StrcmpContract strcmp
unfolding strcmp
strcmp-StrcmpContract [] s2 cs ds h k = absurd (no-IsString h)
strcmp-StrcmpContract (a ∷ s1) [] cs ds h k = absurd (no-IsString k)
strcmp-StrcmpContract (a ∷ s1) (b ∷ s2) cs ds h k = elim (Bool-cases (a == b)) [
  | inr ne ↦ (
    byte_diff a b,
    rw (strcmp, ne) refl,
    (
      (λ z. absurd (byte_diff-ne a b (head_byte h) (head_byte k) ne z)),
      λ z. absurd (StrcmpZero-differ a b s1 s2 ne z),
    ),
  )
  | inl same ↦ elim (Bool-cases (a == 0)) [
    | inl e ↦
        (0, rw (strcmp, same, e) refl, ((λ _. (0, StrcmpZero-ended a b s1 s2 same e)), λ _. refl))
    | inr e ↦
        let other : (b == 0) ≡ false = ground arith in
        let (cs', h') = IsString-tail e h in
        let (ds', k') = IsString-tail other k in
        let (r, f, (to, from)) = strcmp-StrcmpContract s1 s2 cs' ds' h' k' in
        let (up, down) = StrcmpZero-cons a b s1 s2 same e in
        (r, rw (strcmp, same, e) f, ((λ z. up (to z)), λ z. from (down z)))
  ]
]

-- what `strncmp` returns 0 for, with `n` characters left
abbrev StrncmpZero : List ℕ → List ℕ → ℕ → Type 0
StrncmpZero s1 s2 n = ((k : ℕ) × (k < n) × StrcmpZero s1 s2 k) ⊎ MemcmpZero byte_at shift s1 s2 n

StrncmpZero-differ :
    (a b n : ℕ) (s1 s2 : List ℕ) → (a == b) ≡ false → ¬ StrncmpZero (a ∷ s1) (b ∷ s2) (suc n)
StrncmpZero-differ a b n s1 s2 ne (inl (k, lt, z)) = StrcmpZero-differ a b s1 s2 ne (k, z)
StrncmpZero-differ a b n s1 s2 ne (inr eq) = let same : a ≡ b = eq 0 (omega arith) in ground arith

StrncmpZero-cons :
    (a b n : ℕ) (s1 s2 : List ℕ)
    → (a == b) ≡ true
    → (a == 0) ≡ false
    → StrncmpZero s1 s2 n
    → StrncmpZero (a ∷ s1) (b ∷ s2) (suc n)
StrncmpZero-cons a b n s1 s2 same e (inl (k, lt, (h1, h2, eq))) =
    let other : (b == 0) ≡ false = ground arith in
    inl (
      suc k,
      omega arith,
      (
        HasStrlen-cons a k s1 e h1,
        HasStrlen-cons b k s2 other h2,
        λ i le.
            MemcmpZero-cons (suc k) a b s1 s2 (ground arith) (λ j lt'. eq j (omega arith)) i
              (omega arith),
      ),
    )
StrncmpZero-cons a b n s1 s2 same e (inr eq) = inr (MemcmpZero-cons n a b s1 s2 (ground arith) eq)

StrncmpZero-tail :
    (a b n : ℕ) (s1 s2 : List ℕ)
    → (a == b) ≡ true
    → (a == 0) ≡ false
    → StrncmpZero (a ∷ s1) (b ∷ s2) (suc n)
    → StrncmpZero s1 s2 n
StrncmpZero-tail a b n s1 s2 same e (inl (zero, lt, ((z, _), h2, eq))) = absurd (ground arith)
StrncmpZero-tail a b n s1 s2 same e (inl (suc k, lt, ((z1, b1), (z2, b2), eq))) = inl (
  k,
  omega arith,
  (
    (z1, λ i lt. b1 (suc i) (omega arith)),
    (z2, λ i lt. b2 (suc i) (omega arith)),
    λ i le. eq (suc i) (omega arith),
  ),
)
StrncmpZero-tail a b n s1 s2 same e (inr eq) = inr (λ i lt. eq (suc i) (omega arith))

strncmp-StrncmpContract : StrncmpContract strncmp
unfolding strncmp
strncmp-StrncmpContract s1 s2 zero b1 b2 h k =
    (0, refl, ((λ _. inr (λ i lt. absurd (omega arith))), λ _. refl))
strncmp-StrncmpContract [] s2 (suc n) b1 b2 (inl h) k = absurd (omega arith)
strncmp-StrncmpContract [] s2 (suc n) b1 b2 (inr (cs, h)) k = absurd (no-IsString h)
strncmp-StrncmpContract (a ∷ s1) [] (suc n) b1 b2 h (inl k) = absurd (omega arith)
strncmp-StrncmpContract (a ∷ s1) [] (suc n) b1 b2 h (inr (ds, k)) = absurd (no-IsString k)
strncmp-StrncmpContract (a ∷ s1) (b ∷ s2) (suc n) b1 b2 h k = elim (Bool-cases (a == b)) [
  | inr ne ↦ (
    byte_diff a b,
    rw (strncmp, ne) refl,
    (
      (λ z. absurd (byte_diff-ne a b (b1 0) (b2 0) ne z)),
      λ z. absurd (StrncmpZero-differ a b n s1 s2 ne z),
    ),
  )
  | inl same ↦ elim (Bool-cases (a == 0)) [
    | inl e ↦ (
      0,
      rw (strncmp, same, e) refl,
      ((λ _. inl (0, omega arith, StrcmpZero-ended a b s1 s2 same e)), λ _. refl),
    )
    | inr e ↦
        let other : (b == 0) ≡ false = ground arith in
        let (r, f, (to, from)) =
          strncmp-StrncmpContract s1 s2 n (tail-AreBytes a s1 b1) (tail-AreBytes b s2 b2)
            (IsNstring-tail a n s1 e h) (IsNstring-tail b n s2 other k) in
        (
          r,
          rw (strncmp, same, e) f,
          (
            (λ z. StrncmpZero-cons a b n s1 s2 same e (to z)),
            λ z. from (StrncmpZero-tail a b n s1 s2 same e z),
          ),
        )
  ]
]

-- `strlen`, `strnlen`, `strcmp` and `strncmp` meet their contracts.
pub queries-Contract :
    StrlenContract strlen
    × StrnlenContract strnlen
    × StrcmpContract strcmp
    × StrncmpContract strncmp
queries-Contract =
    (strlen-StrlenContract, strnlen-StrnlenContract, strcmp-StrcmpContract, strncmp-StrncmpContract)
