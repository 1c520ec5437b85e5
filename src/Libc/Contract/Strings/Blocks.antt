-- ===== src/Libc/Contract/Strings/Blocks.antt =====
-- The functions of string.c on blocks of bytes meet their contracts.
use frama_c_snapshot.Prelude.{
  ℕ, zero, suc, ◌+◌, ◌%◌, ◌≤◌, ◌<◌, ◌≡◌, ◌≢◌, ◌⊎◌, refl, sym, ap, ◌∙◌, true, false, Option, none,
  some, List, [], ◌∷◌, ◌==◌, arith, inl, inr, Bool-cases, Option-cases, ltb, length, get_elem?, set,
  length-set, get_elem?-set_self, get_elem?-set_ne,
}
use frama_c_snapshot.Prelude.Run.{Ensures, ok, ◌>>=◌}
use frama_c_snapshot.Libc.Bytes.{
  write, byte_diff, copy_bytes, memcpy, fill_bytes, memset, memcmp, scan_up, memchr,
}
use frama_c_snapshot.Libc.Bytes.Move.{get_elem?_below}
use frama_c_snapshot.Libc.Scan.Compare.{byte_diff-ne}
use frama_c_snapshot.Libc.Contract.Axioms.{MemcmpZero, Memchr}
use frama_c_snapshot.Libc.Contract.Axioms.Lengths.{byte_at, shift}
use frama_c_snapshot.Libc.Contract.Strings.{
  AreBytes, MemcmpContract, MemchrContract, MemcpyContract, MemsetContract,
}

abbrev or_one : Option ℕ → ℕ
or_one none = 1
or_one (some c) = c

byte_at-or_one : (s : List ℕ) (i : ℕ) → byte_at s i ≡ or_one (get_elem? s i)
byte_at-or_one [] i = refl
byte_at-or_one (c ∷ s) zero = refl
byte_at-or_one (c ∷ s) (suc i) = byte_at-or_one s i

-- Places with the same content give the same byte.
pub byte_at_same :
    (s t : List ℕ) (i j : ℕ) → get_elem? s i ≡ get_elem? t j → byte_at s i ≡ byte_at t j
byte_at_same s t i j e = byte_at-or_one s i ∙ ap or_one e ∙ sym (byte_at-or_one t j)

pub byte_at-some : (s : List ℕ) (i c : ℕ) → get_elem? s i ≡ some c → byte_at s i ≡ c
byte_at-some s i c e = byte_at-or_one s i ∙ ap or_one e

-- The `n` bytes from `i` on have given contents, and the others are those of `dest`.
abbrev pub Writes : ℕ → ℕ → (ℕ → Option ℕ) → List ℕ → List ℕ → Type 0
Writes n i content dest out =
    (length out ≡ length dest)
    × ((k : ℕ) → i ≤ k → k < i + n → get_elem? out k ≡ content k)
    × ((k : ℕ) → (k < i) ⊎ (i + n ≤ k) → get_elem? out k ≡ get_elem? dest k)

-- One byte is written at `i`, and the others behind it.
pub Writes-suc :
    (n i v : ℕ) (content : ℕ → Option ℕ) (dest out : List ℕ)
    → i < length dest
    → content i ≡ some v
    → Writes n (i + 1) content (set dest i v) out
    → Writes (suc n) i content dest out
Writes-suc n i v content dest out lt e (len, inside, outside) = (
  len ∙ length-set dest i v,
  (λ k a b. elim (Bool-cases (k == i)) [
    | inl z ↦
        let same : k ≡ i = ground arith in
        rw same (outside i (inl (omega arith)) ∙ get_elem?-set_self dest i v lt ∙ sym e)
    | inr z ↦ inside k (ground arith) (omega arith)
  ]),
  λ k a. outside k (ground arith) ∙ get_elem?-set_ne dest v (ground arith),
)

copy_bytes-Writes :
    (n i : ℕ) (dest src : List ℕ)
    → i + n ≤ length dest
    → i + n ≤ length src
    → Ensures (copy_bytes n i dest src) (λ out. Writes n i (get_elem? src) dest out)
unfolding copy_bytes
copy_bytes-Writes zero i dest src p q =
    (dest, refl, (refl, (λ k a b. absurd (omega arith)), λ k _. refl))
copy_bytes-Writes (suc n) i dest src p q =
    let (v, r) = get_elem?_below src i (omega arith) in
    let (u, t) = get_elem?_below dest i (omega arith) in
    let len = length-set dest i v in
    let (out, e, w) =
      copy_bytes-Writes n (i + 1) (set dest i v) src (omega (arith, len)) (omega arith) in
    (out, rw (r, write, t) e, Writes-suc n i v (get_elem? src) dest out (omega arith) r w)

fill_bytes-Writes :
    (n i c : ℕ) (s : List ℕ)
    → i + n ≤ length s
    → Ensures (fill_bytes n i c s) (λ out. Writes n i (λ _. some (c % 256)) s out)
unfolding fill_bytes
fill_bytes-Writes zero i c s p = (s, refl, (refl, (λ k a b. absurd (omega arith)), λ k _. refl))
fill_bytes-Writes (suc n) i c s p =
    let v = c % 256 in
    let (u, t) = get_elem?_below s i (omega arith) in
    let len = length-set s i v in
    let (out, e, w) = fill_bytes-Writes n (i + 1) c (set s i v) (omega (arith, len)) in
    (out, rw (write, t) e, Writes-suc n i v (λ _. some v) s out (omega arith) refl w)

memcpy-MemcpyContract : MemcpyContract memcpy
unfolding memcpy
memcpy-MemcpyContract dest src n p q =
    let (out, e, (len, inside, outside)) =
      copy_bytes-Writes n 0 dest src (omega arith) (omega arith) in
    (
      out,
      e,
      (
        (λ k lt. byte_at_same out src k k (inside k (omega arith) (omega arith))),
        (len, λ k le. outside k (inr (omega arith))),
      ),
    )

memset-MemsetContract : (c : ℕ) → c < 128 → MemsetContract c memset
unfolding memset
memset-MemsetContract c low s n p =
    let (out, e, (len, inside, outside)) = fill_bytes-Writes n 0 c s (omega arith) in
    let same : c % 256 ≡ c = omega arith in
    (
      out,
      e,
      (
        (λ k lt. byte_at-some out k (c % 256) (inside k (omega arith) (omega arith)) ∙ same),
        (len, λ k le. outside k (inr (omega arith))),
      ),
    )

pub tail-AreBytes : (c : ℕ) (s : List ℕ) → AreBytes (c ∷ s) → AreBytes s
tail-AreBytes c s h i = h (suc i)

pub MemcmpZero-cons :
    (n a b : ℕ) (s1 s2 : List ℕ)
    → a ≡ b
    → MemcmpZero byte_at shift s1 s2 n
    → MemcmpZero byte_at shift (a ∷ s1) (b ∷ s2) (suc n)
MemcmpZero-cons n a b s1 s2 e h zero lt = e
MemcmpZero-cons n a b s1 s2 e h (suc i) lt = h i (omega arith)

memcmp-MemcmpContract : MemcmpContract memcmp
unfolding memcmp
memcmp-MemcmpContract zero s1 s2 b1 b2 p q =
    (0, refl, ((λ _ i lt. absurd (omega arith)), λ _. refl))
memcmp-MemcmpContract (suc n) [] s2 b1 b2 p q = absurd (omega arith)
memcmp-MemcmpContract (suc n) (a ∷ s1) [] b1 b2 p q = absurd (omega arith)
memcmp-MemcmpContract (suc n) (a ∷ s1) (b ∷ s2) b1 b2 p q = elim (Bool-cases (a == b)) [
  | inr ne ↦ (
    byte_diff a b,
    rw (memcmp, ne) refl,
    (
      (λ z. absurd (byte_diff-ne a b (b1 0) (b2 0) ne z)),
      λ h. absurd (let same : a ≡ b = h 0 (omega arith) in ground arith),
    ),
  )
  | inl e ↦
      let (r, f, (to, from)) =
        memcmp-MemcmpContract n s1 s2 (tail-AreBytes a s1 b1) (tail-AreBytes b s2 b2) (omega arith)
          (omega arith) in
      (
        r,
        rw (memcmp, e) f,
        (
          (λ z. MemcmpZero-cons n a b s1 s2 (ground arith) (to z)),
          λ h. from (λ i lt. h (suc i) (omega arith)),
        ),
      )
]

-- the first place from `i` on, of `n`, that holds `ch`
abbrev FirstOf : ℕ → ℕ → ℕ → List ℕ → Option ℕ → Type 0
FirstOf n i ch s none = (k : ℕ) → i ≤ k → k < i + n → byte_at s k ≢ ch
FirstOf n i ch s (some j) =
    (j < i + n) × (byte_at s j ≡ ch) × ((k : ℕ) → i ≤ k → k < i + n → byte_at s k ≡ ch → j ≤ k)

FirstOf-suc :
    (n i ch : ℕ) (s : List ℕ) (o : Option ℕ)
    → byte_at s i ≢ ch
    → FirstOf n (i + 1) ch s o
    → FirstOf (suc n) i ch s o
FirstOf-suc n i ch s none ne h = λ k a b. elim (Bool-cases (k == i)) [
  | inl z ↦ let same : k ≡ i = ground arith in rw same ne
  | inr z ↦ h k (ground arith) (omega arith)
]
FirstOf-suc n i ch s (some j) ne (lt, e, first) = (
  omega arith,
  e,
  λ k a b q. elim (Bool-cases (k == i)) [
    | inl z ↦ let same : i ≡ k = ground arith in absurd (ne (ap (byte_at s) same ∙ q))
    | inr z ↦ first k (ground arith) (omega arith) q
  ],
)

scan_up-hit :
    (n i ch c : ℕ) (s : List ℕ)
    → get_elem? s i ≡ some c
    → (c == ch) ≡ true
    → scan_up (suc n) i ch s ≡ ok (some i)
unfolding scan_up
scan_up-hit n i ch c s r e = rw (r, ◌>>=◌, e) refl

scan_up-miss :
    (n i ch c : ℕ) (s : List ℕ)
    → get_elem? s i ≡ some c
    → (c == ch) ≡ false
    → scan_up (suc n) i ch s ≡ scan_up n (i + 1) ch s
unfolding scan_up
scan_up-miss n i ch c s r e = rw (r, ◌>>=◌, e) refl

scan_up-FirstOf :
    (n i ch : ℕ) (s : List ℕ) → i + n ≤ length s → Ensures (scan_up n i ch s) (FirstOf n i ch s)
unfolding scan_up
scan_up-FirstOf zero i ch s p = (none, refl, λ k a b. absurd (omega arith))
scan_up-FirstOf (suc n) i ch s p =
    let (c, r) = get_elem?_below s i (omega arith) in
    let at = byte_at-some s i c r in
    elim (Bool-cases (c == ch)) [
      | inl e ↦ (
        some i,
        scan_up-hit n i ch c s r e,
        (omega arith, at ∙ (let q : c ≡ ch = ground arith in q), λ k a b q. a),
      )
      | inr e ↦
          let (o, f, h) = scan_up-FirstOf n (i + 1) ch s (omega arith) in
          let ne : byte_at s i ≢ ch = λ q. ground (arith, at) in
          (o, scan_up-miss n i ch c s r e ∙ f, FirstOf-suc n i ch s o ne h)
    ]

FirstOf-cases :
    (s : List ℕ) (c n : ℕ) (o : Option ℕ)
    → FirstOf n 0 c s o
    → (Memchr byte_at shift s c n
        → (i : ℕ) × (o ≡ some i) × (byte_at s i ≡ c) × ((j : ℕ) → j < n → byte_at s j ≡ c → i ≤ j))
      × (¬ Memchr byte_at shift s c n → o ≡ none)
FirstOf-cases s c n none h = ((λ (i, lt, e). absurd (h i (omega arith) (omega arith) e)), λ _. refl)
FirstOf-cases s c n (some j) (lt, e, first) = (
  (λ _. (j, refl, e, λ k below q. first k (omega arith) (omega arith) q)),
  λ no_char. absurd (no_char (j, omega arith, e)),
)

-- A longer search finds the same place.
scan_up-longer :
    (m n i ch j : ℕ) (s : List ℕ)
    → m ≤ n
    → scan_up m i ch s ≡ ok (some j)
    → scan_up n i ch s ≡ ok (some j)
unfolding scan_up
scan_up-longer zero n i ch j s le e = absurd (cc)
scan_up-longer (suc m) zero i ch j s le e = absurd (omega arith)
scan_up-longer (suc m) (suc n) i ch j s le e = elim (Option-cases (get_elem? s i)) [
  | inl r ↦ absurd (let e' = rw (scan_up, r) at e in cc)
  | inr (c, r) ↦ elim (Bool-cases (c == ch)) [
    | inl q ↦ scan_up-hit n i ch c s r q ∙ sym (scan_up-hit m i ch c s r q) ∙ e
    | inr q ↦
        scan_up-miss n i ch c s r q
        ∙ scan_up-longer m n (i + 1) ch j s (omega arith) (sym (scan_up-miss m i ch c s r q) ∙ e)
  ]
]

-- The character is in the object, which may end before `n` bytes.
scan_up-off :
    (n off ch : ℕ) (s : List ℕ)
    → off < n
    → off < length s
    → byte_at s off ≡ ch
    → Ensures (scan_up n 0 ch s) (FirstOf n 0 ch s)
scan_up-off n off ch s lt inside e =
    let (o, f, h) = scan_up-FirstOf (suc off) 0 ch s (omega arith) in longer o f h
  where
    longer :
        (o : Option ℕ)
        → scan_up (suc off) 0 ch s ≡ ok o
        → FirstOf (suc off) 0 ch s o
        → Ensures (scan_up n 0 ch s) (FirstOf n 0 ch s)
    longer none f h = absurd (h off (omega arith) (omega arith) e)
    longer (some j) f (below, at, first) = (
      some j,
      scan_up-longer (suc off) n 0 ch j s (omega arith) f,
      (
        omega arith,
        at,
        λ k lo hi q. elim (Bool-cases (ltb k (suc off))) [
          | inl near ↦ first k (omega arith) (ground arith) q
          | inr away ↦ ground arith
        ],
      ),
    )

memchr-MemchrContract : (c : ℕ) → c < 128 → MemchrContract c memchr
unfolding memchr
memchr-MemchrContract c low s n (inl p) =
    let same : c % 256 ≡ c = omega arith in
    let (o, f, h) = scan_up-FirstOf n 0 c s (omega arith) in (o, rw same f, FirstOf-cases s c n o h)
memchr-MemchrContract c low s n (inr (off, lt, inside, e)) =
    let same : c % 256 ≡ c = omega arith in
    let (o, f, h) = scan_up-off n off c s lt inside e in (o, rw same f, FirstOf-cases s c n o h)

-- `memcmp` returns what its contract says, and so does `memchr` at each character below 128; `memcpy`,
-- between two objects, and `memset`, at such a character, return and do to the destination what
-- their contracts say of it.
pub blocks-Contract :
    (c : ℕ)
    → c < 128
    → MemcmpContract memcmp
      × MemchrContract c memchr
      × MemcpyContract memcpy
      × MemsetContract c memset
blocks-Contract c low = (
  memcmp-MemcmpContract,
  memchr-MemchrContract c low,
  memcpy-MemcpyContract,
  memset-MemsetContract c low,
)
