-- ===== src/Libc/Contract/Strings/Makes.antt =====
-- `strcpy`, `strncpy`, `strcat` and `strncat` of string.c meet their contracts.
use frama_c_snapshot.Prelude.{
  ℕ, zero, suc, ◌+◌, ◌-◌, ◌≤◌, ◌<◌, ◌≡◌, ◌≢◌, refl, sym, ap, ◌∙◌, List, [], ◌∷◌, ◌++◌, arith, inl,
  inr, Bool-cases, ◌==◌, leb, ltb, length, get_elem?, take, min,
}
use mathlib.Core.Path.{fun_ext, subst}
use frama_c_snapshot.Prelude.Run.{Run, Ensures, ◌>>=◌}
use frama_c_snapshot.Libc.Bytes.{write}
use frama_c_snapshot.Libc.Write.{put_prefix, strcpy, strcat, strncat, strncpy}
use frama_c_snapshot.Libc.Scan.Length.{IsString, ended, more, strlen-IsString}
use frama_c_snapshot.Libc.Contract.Axioms.Lengths.{byte_at}
use frama_c_snapshot.Libc.Contract.Strings.{
  HasStrlen, AreBytes, Assigns, StrcpyContract, StrncpyContract, StrcatContract, StrncatContract,
}
use frama_c_snapshot.Libc.Contract.Strings.Blocks.{byte_at_same, Writes, tail-AreBytes}
use frama_c_snapshot.Libc.Contract.Strings.Queries.{
  IsString-HasStrlen, HasStrlen-cons, HasStrlen-zero,
}
use frama_c_snapshot.Libc.Contract.Strings.Copies.{
  from_place, padded, put_string-Writes, put_prefix-Writes, put_padded-Writes,
}

-- The bytes that were written at `m` and behind it.
byte_at-from_place :
    (n m i : ℕ) (src dest out : List ℕ)
    → Writes n m (from_place m src) dest out
    → i < n
    → byte_at out (m + i) ≡ byte_at src i
byte_at-from_place n m i src dest out (len, inside, outside) lt =
    let q : m + i - m ≡ i = omega arith in
    byte_at_same out src (m + i) i
      (inside (m + i) (omega arith) (omega arith) ∙ ap (get_elem? src) q)

-- A string of `n` characters put behind `m` others is a string of `m + n`.
Writes-HasStrlen :
    (n m : ℕ) (src dest out : List ℕ)
    → Writes (suc n) m (from_place m src) dest out
    → ((k : ℕ) → k < m → byte_at dest k ≢ 0)
    → HasStrlen src n
    → HasStrlen out (m + n)
Writes-HasStrlen n m src dest out w before (z, chars) =
    (byte_at-from_place (suc n) m n src dest out w (omega arith) ∙ z, all)
  where
    all : (k : ℕ) → k < m + n → byte_at out k ≢ 0
    all k lt e = elim (Bool-cases (ltb k m)) [
      | inl low ↦
          before k (ground arith) (byte_at_same dest out k k (sym (w.2 k (inl (ground arith)))) ∙ e)
      | inr high ↦
          let q : m + (k - m) ≡ k = ground arith in
          let at = byte_at-from_place (suc n) m (k - m) src dest out w (omega arith) in
          chars (k - m) (ground arith) (sym at ∙ ap (byte_at out) q ∙ e)
    ]

Writes-Assigns :
    (n m : ℕ) (src dest out : List ℕ)
    → Writes n m (from_place m src) dest out
    → Assigns m n dest out
Writes-Assigns n m src dest out w = (w.0, w.2)

strcpy-StrcpyContract : StrcpyContract strcpy
unfolding strcpy
strcpy-StrcpyContract dest src cs h lt =
    let n = length cs in
    let (out, e, w) = put_string-Writes 0 dest h (omega arith) in
    let length_src = IsString-HasStrlen h in
    let z : 0 + n ≡ n = omega arith in
    let s : suc n ≡ n + 1 = omega arith in
    let made : HasStrlen out (0 + n) =
      Writes-HasStrlen n 0 src dest out w (λ k low. absurd (omega arith)) length_src in
    (
      out,
      e,
      (
        (
          rw (sym z) made,
          length_src,
          λ i le.
              let q : 0 + i ≡ i = omega arith in
              ap (byte_at out) (sym q)
              ∙ byte_at-from_place (suc n) 0 i src dest out w (omega arith),
        ),
        rw (sym s) (Writes-Assigns (suc n) 0 src dest out w),
      ),
    )

strcat-StrcatContract : StrcatContract strcat
unfolding strcat
strcat-StrcatContract dest src ds cs k h lt =
    let n = length cs in
    let m = length ds in
    let (len, _) = strlen-IsString 0 k in
    let (out, e, w) = put_string-Writes m dest h lt in
    let s : suc n ≡ n + 1 = omega arith in
    (
      out,
      rw len e,
      (
        Writes-HasStrlen n m src dest out w (IsString-HasStrlen k).1 (IsString-HasStrlen h),
        rw (sym s) (Writes-Assigns (suc n) m src dest out w),
      ),
    )

take-HasStrlen :
    {s cs : List ℕ} (n : ℕ) → IsString s cs → HasStrlen (take n cs ++ 0 ∷ []) (min n (length cs))
take-HasStrlen {cs = cs} zero h =
    let q : min 0 (length cs) ≡ 0 = omega arith in rw q (HasStrlen-zero [])
take-HasStrlen (suc n) ended = let q : min (suc n) 0 ≡ 0 = omega arith in rw q (HasStrlen-zero [])
take-HasStrlen (suc n) (more {c = c} {cs = cs} p b h) =
    let q : min (suc n) (suc (length cs)) ≡ suc (min n (length cs)) = omega arith in
    rw q (HasStrlen-cons c (min n (length cs)) (take n cs ++ 0 ∷ []) p (take-HasStrlen n h))

-- a source that is a string
strncat-IsString :
    {src cs ds : List ℕ} (dest : List ℕ) (n : ℕ)
    → IsString dest ds
    → IsString src cs
    → length ds + min n (length cs) < length dest
    → Ensures (strncat dest src n) (λ out.
      HasStrlen out (length ds + min n (length cs))
      × Assigns (length ds) (min n (length cs) + 1) dest out)
unfolding strncat
strncat-IsString {cs = cs} {ds = ds} dest n k h lt =
    let l = min n (length cs) in
    let m = length ds in
    let (len, _) = strlen-IsString 0 k in
    let (out, e, w) = put_prefix-Writes m n dest h lt in
    let s : suc l ≡ l + 1 = omega arith in
    let put = take n cs ++ 0 ∷ [] in
    (
      out,
      rw len e,
      (
        Writes-HasStrlen l m put dest out w (IsString-HasStrlen k).1 (take-HasStrlen n h),
        rw (sym s) (Writes-Assigns (suc l) m put dest out w),
      ),
    )

-- a source with its first `n` bytes, and a terminator behind them
abbrev cut : ℕ → List ℕ → List ℕ
cut n src = take n src ++ 0 ∷ []

put_prefix-cut :
    (i n : ℕ) (dest src : List ℕ)
    → n ≤ length src
    → put_prefix i n dest src ≡ put_prefix i n dest (cut n src)
unfolding put_prefix
put_prefix-cut i zero dest [] le = refl
put_prefix-cut i zero dest (c ∷ src) le = refl
put_prefix-cut i (suc n) dest [] le = absurd (omega arith)
put_prefix-cut i (suc n) dest (c ∷ src) le = elim (Bool-cases (c == 0)) [
  | inl e ↦ rw (put_prefix, e) refl
  | inr e ↦
      rw (put_prefix, e)
        (ap (λ (f : List ℕ → Run (List ℕ)). write dest i c >>= f)
          (fun_ext (λ dest'. put_prefix-cut (i + 1) n dest' src (omega arith))))
]

-- What is cut off is a string, and the source's own one if that ends before.
cut-IsString :
    (n : ℕ) (src : List ℕ)
    → AreBytes src
    → n ≤ length src
    → (cs : List ℕ) × IsString (cut n src) cs × (length cs ≤ n) × (length cs < n → IsString src cs)
cut-IsString zero src b le = ([], ended, omega arith, λ lt. absurd (omega arith))
cut-IsString (suc n) [] b le = absurd (omega arith)
cut-IsString (suc n) (c ∷ src) b le = elim (Bool-cases (c == 0)) [
  | inl e ↦ let z : c ≡ 0 = ground arith in rw z ([], ended, omega arith, λ lt. ended)
  | inr e ↦
      let (cs, h, short, own) = cut-IsString n src (tail-AreBytes c src b) (omega arith) in
      (c ∷ cs, more e (b 0) h, omega arith, λ lt. more e (b 0) (own (omega arith)))
]

-- A source of `n` bytes with no terminator among its first `n + 1`.
strncat-partial :
    {ds : List ℕ} (dest src : List ℕ) (n : ℕ)
    → IsString dest ds
    → AreBytes src
    → n ≤ length src
    → ¬ ((cs : List ℕ) × IsString src cs × (length cs ≤ n))
    → length ds + n < length dest
    → Ensures
        (strncat dest src n)
        (λ out. HasStrlen out (length ds + n) × Assigns (length ds) (n + 1) dest out)
unfolding strncat
strncat-partial {ds} dest src n k b le endless lt =
    let (cs, h, short, own) = cut-IsString n src b le in
    let whole : length cs ≡ n = elim (Bool-cases (ltb (length cs) n)) [
      | inl e ↦ absurd (endless (cs, own (ground arith), omega arith))
      | inr e ↦ ground arith
    ] in
    let l : min n (length cs) ≡ n = omega arith in
    let (len, _) = strlen-IsString 0 k in
    let (out, e, p) = strncat-IsString dest n k h (omega arith) in
    (
      out,
      rw (len, put_prefix-cut (length ds) n dest src le) (rw len at e),
      subst (λ (x : ℕ). HasStrlen out (length ds + x) × Assigns (length ds) (x + 1) dest out) l p,
    )

strncat-StrncatContract : StrncatContract strncat
strncat-StrncatContract dest src ds n k b source = (
  (λ cs h le lt.
      let l : min n (length cs) ≡ length cs = omega arith in
      rw l at (strncat-IsString dest n k h (omega arith))),
  λ endless lt. elim source [
    | inl le ↦ strncat-partial dest src n k b le endless lt
    | inr (cs, h) ↦
        let over : n < length cs = elim (Bool-cases (leb (length cs) n)) [
          | inl e ↦ absurd (endless (cs, h, ground arith))
          | inr e ↦ ground arith
        ] in
        let l : min n (length cs) ≡ n = omega arith in
        rw l at (strncat-IsString dest n k h (omega arith))
  ],
)

padded-short :
    {s cs : List ℕ} (n i : ℕ)
    → IsString s cs
    → i < n
    → i ≤ length cs
    → byte_at (padded n cs) i ≡ byte_at s i
padded-short zero i h lt le = absurd (omega arith)
padded-short (suc n) zero ended lt le = refl
padded-short (suc n) (suc i) ended lt le = absurd (omega arith)
padded-short (suc n) zero (more p b h) lt le = refl
padded-short (suc n) (suc i) (more p b h) lt le = padded-short n i h (omega arith) (omega arith)

strncpy-StrncpyContract : StrncpyContract strncpy
unfolding strncpy
strncpy-StrncpyContract dest src cs n h le =
    let (out, e, w) = put_padded-Writes 0 n dest h (omega arith) in
    let (z, chars) = IsString-HasStrlen h in
    let same : (i : ℕ) → i < n → i ≤ length cs → byte_at out i ≡ byte_at src i = λ i lt short.
      let q : 0 + i ≡ i = omega arith in
      ap (byte_at out) (sym q)
      ∙ byte_at-from_place n 0 i (padded n cs) dest out w lt
      ∙ padded-short n i h lt short in
    (
      out,
      e,
      (
        (λ fits. (
          (
            same (length cs) fits (omega arith) ∙ z,
            λ i lt zero_there. chars i lt (sym (same i (omega arith) (omega arith)) ∙ zero_there),
          ),
          (z, chars),
          λ i short. same i (omega arith) short,
        )),
        (λ too_long i lt. same i lt (omega arith)),
        Writes-Assigns n 0 (padded n cs) dest out w,
      ),
    )

-- From a source to a destination in two objects, `strcpy`, `strncpy`, `strcat` and `strncat` return and
-- do to the destination what their contracts say of it, `strncat` also from a source with no
-- terminator.
pub makes-Contract :
    StrcpyContract strcpy
    × StrncpyContract strncpy
    × StrcatContract strcat
    × StrncatContract strncat
makes-Contract =
    (strcpy-StrcpyContract, strncpy-StrncpyContract, strcat-StrcatContract, strncat-StrncatContract)
