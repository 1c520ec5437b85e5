-- ===== src/Libc/Contract/Strings/Finds.antt =====
-- `strchr` and `strrchr` of string.c meet their contracts.
use frama_c_snapshot.Prelude.{
  ℕ, zero, suc, ◌+◌, ◌%◌, ◌≤◌, ◌<◌, ◌≡◌, ◌≢◌, refl, ap, ◌∙◌, true, false, Option, none, some, List,
  ◌∷◌, ◌==◌, arith, inl, inr, Bool-cases, length, get_elem?,
}
use frama_c_snapshot.Prelude.Run.{Ensures, ok, ◌>>=◌}
use frama_c_snapshot.Libc.Bytes.{scan_down}
use frama_c_snapshot.Libc.Bytes.Move.{get_elem?_below}
use frama_c_snapshot.Libc.Scan.{strchr_from, strchr, strrchr}
use frama_c_snapshot.Libc.Scan.Length.{IsString, ended, more, strlen-IsString}
use frama_c_snapshot.Libc.Contract.Axioms.Lengths.{byte_at}
use frama_c_snapshot.Libc.Contract.Strings.{StrchrContract, StrrchrContract}
use frama_c_snapshot.Libc.Contract.Strings.Blocks.{byte_at-some}

-- a place among the first `n + 1` of a string, from the offset `i`, that holds `ch` first
abbrev FirstIn : ℕ → ℕ → ℕ → List ℕ → Option ℕ → Type 0
FirstIn n i ch s none = (k : ℕ) → k ≤ n → byte_at s k ≢ ch
FirstIn n i ch s (some j) =
    (k : ℕ) × (j ≡ i + k) × (k ≤ n) × (byte_at s k ≡ ch) × ((l : ℕ) → l < k → byte_at s l ≢ ch)

FirstIn-suc :
    (n i ch c : ℕ) (s : List ℕ) (o : Option ℕ)
    → (c == ch) ≡ false
    → FirstIn n (i + 1) ch s o
    → FirstIn (suc n) i ch (c ∷ s) o
FirstIn-suc n i ch c s none ne h = later
  where
    later : (k : ℕ) → k ≤ suc n → byte_at (c ∷ s) k ≢ ch
    later zero le q = ground arith
    later (suc k) le q = h k (omega arith) q
FirstIn-suc n i ch c s (some j) ne (k, at, le, e, first) =
    (suc k, omega arith, omega arith, e, later)
  where
    later : (l : ℕ) → l < suc k → byte_at (c ∷ s) l ≢ ch
    later zero lt q = ground arith
    later (suc l) lt q = first l (omega arith) q

strchr_from-FirstIn :
    {s cs : List ℕ} (i ch : ℕ)
    → IsString s cs
    → Ensures (strchr_from i s ch) (FirstIn (length cs) i ch s)
unfolding strchr_from
strchr_from-FirstIn i ch (ended {rest = rest}) = elim (Bool-cases (0 == ch)) [
  | inl e ↦ (
    some i,
    rw (strchr_from, e) refl,
    (0, omega arith, omega arith, ground arith, λ l lt. absurd (omega arith)),
  )
  | inr e ↦ (
    none,
    rw (strchr_from, e) refl,
    λ k le q.
        let z : k ≡ 0 = omega arith in
        let at : byte_at (0 ∷ rest) k ≡ 0 = ap (byte_at (0 ∷ rest)) z in ground arith,
  )
]
strchr_from-FirstIn i ch (more {c = c} {s = s} {cs = cs} p b h) = elim (Bool-cases (c == ch)) [
  | inl e ↦ (
    some i,
    rw (strchr_from, e) refl,
    (0, omega arith, omega arith, ground arith, λ l lt. absurd (omega arith)),
  )
  | inr e ↦
      let (o, f, first) = strchr_from-FirstIn (i + 1) ch h in
      (o, rw (strchr_from, e, p) f, FirstIn-suc (length cs) i ch c s o e first)
]

FirstIn-cases :
    (n ch : ℕ) (s : List ℕ) (o : Option ℕ)
    → FirstIn n 0 ch s o
    → ((i : ℕ) × (i ≤ n) × (byte_at s i ≡ ch)
        → (i : ℕ) × (o ≡ some i)
          × (byte_at s i ≡ ch)
          × (i ≤ n)
          × ((j : ℕ) → j < i → byte_at s j ≢ ch))
      × (¬ ((i : ℕ) × (i ≤ n) × (byte_at s i ≡ ch)) → o ≡ none)
FirstIn-cases n ch s none h = ((λ (i, le, e). absurd (h i le e)), λ _. refl)
FirstIn-cases n ch s (some j) (k, at, le, e, first) =
    ((λ _. (k, ap some (omega arith), e, le, first)), λ no_char. absurd (no_char (k, le, e)))

strchr-StrchrContract : StrchrContract strchr
unfolding strchr
strchr-StrchrContract s cs c h =
    let (o, f, first) = strchr_from-FirstIn 0 (c % 256) h in
    (o, f, FirstIn-cases (length cs) (c % 256) s o first)

-- a place among the first `n` that holds `ch`
abbrev SomeIn : ℕ → ℕ → List ℕ → Option ℕ → Type 0
SomeIn n ch s none = (k : ℕ) → k < n → byte_at s k ≢ ch
SomeIn n ch s (some j) = (j < n) × (byte_at s j ≡ ch)

SomeIn-suc :
    (n ch : ℕ) (s : List ℕ) (o : Option ℕ)
    → byte_at s n ≢ ch
    → SomeIn n ch s o
    → SomeIn (suc n) ch s o
SomeIn-suc n ch s none ne h = λ k lt. elim (Bool-cases (k == n)) [
  | inl z ↦ let same : k ≡ n = ground arith in rw same ne
  | inr z ↦ h k (ground arith)
]
SomeIn-suc n ch s (some j) ne (lt, e) = (omega arith, e)

scan_down-hit :
    (n ch c : ℕ) (s : List ℕ)
    → get_elem? s n ≡ some c
    → (c == ch) ≡ true
    → scan_down (suc n) ch s ≡ ok (some n)
unfolding scan_down
scan_down-hit n ch c s r e = rw (r, ◌>>=◌, e) refl

scan_down-miss :
    (n ch c : ℕ) (s : List ℕ)
    → get_elem? s n ≡ some c
    → (c == ch) ≡ false
    → scan_down (suc n) ch s ≡ scan_down n ch s
unfolding scan_down
scan_down-miss n ch c s r e = rw (r, ◌>>=◌, e) refl

scan_down-SomeIn :
    (n ch : ℕ) (s : List ℕ) → n ≤ length s → Ensures (scan_down n ch s) (SomeIn n ch s)
unfolding scan_down
scan_down-SomeIn zero ch s p = (none, refl, λ k lt. absurd (omega arith))
scan_down-SomeIn (suc n) ch s p =
    let (c, r) = get_elem?_below s n (omega arith) in
    let at = byte_at-some s n c r in
    elim (Bool-cases (c == ch)) [
      | inl e ↦
          let q : c ≡ ch = ground arith in
          (some n, scan_down-hit n ch c s r e, (omega arith, at ∙ q))
      | inr e ↦
          let (o, f, h) = scan_down-SomeIn n ch s (omega arith) in
          let ne : byte_at s n ≢ ch = λ q. ground (arith, at) in
          (o, scan_down-miss n ch c s r e ∙ f, SomeIn-suc n ch s o ne h)
    ]

IsString-length : {s cs : List ℕ} → IsString s cs → length cs < length s
IsString-length ended = omega arith
IsString-length (more p b h) = omega (arith, IsString-length h)

SomeIn-cases :
    (n ch : ℕ) (s : List ℕ) (o : Option ℕ)
    → SomeIn (n + 1) ch s o
    → ((i : ℕ) × (i ≤ n) × (byte_at s i ≡ ch)
        → (i : ℕ) × (o ≡ some i) × (byte_at s i ≡ ch) × (i ≤ n))
      × (¬ ((i : ℕ) × (i ≤ n) × (byte_at s i ≡ ch)) → o ≡ none)
SomeIn-cases n ch s none h = ((λ (i, le, e). absurd (h i (omega arith) e)), λ _. refl)
SomeIn-cases n ch s (some j) (lt, e) =
    ((λ _. (j, refl, e, omega arith)), λ no_char. absurd (no_char (j, omega arith, e)))

strrchr-StrrchrContract : (c : ℕ) → c < 128 → StrrchrContract c strrchr
unfolding strrchr
strrchr-StrrchrContract c low s cs h =
    let same : c % 256 ≡ c = omega arith in
    let (len, _) = strlen-IsString 0 h in
    let (o, f, some_in) =
      scan_down-SomeIn (length cs + 1) c s (let lt = IsString-length h in omega arith) in
    rw same (o, rw len f, SomeIn-cases (length cs) c s o some_in)

-- `strchr` meets its contract, and `strrchr` its at each character below 128.
pub finds-Contract : (c : ℕ) → c < 128 → StrchrContract strchr × StrrchrContract c strrchr
finds-Contract c low = (strchr-StrchrContract, strrchr-StrrchrContract c low)
