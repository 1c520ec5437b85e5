-- ===== src/Libc/Contract/Strings/Copies.antt =====
-- What the loops of `strcpy`, `strncpy`, `strcat` and `strncat` write, and where.
use frama_c_snapshot.Prelude.{
  ℕ, zero, suc, ◌+◌, ◌-◌, ◌≤◌, ◌<◌, ◌≡◌, refl, sym, ap, ◌∙◌, Option, List, [], ◌∷◌, arith, length,
  get_elem?, set, length-set, get_elem?-set_ne, min, take, ◌++◌,
}
use frama_c_snapshot.Prelude.Run.{Ensures, Run, ◌>>=◌}
use frama_c_snapshot.Libc.Bytes.{write}
use frama_c_snapshot.Libc.Bytes.Move.{get_elem?_below}
use frama_c_snapshot.Libc.Write.{put_string, put_prefix, pad, put_padded}
use frama_c_snapshot.Libc.Scan.Length.{IsString, ended, more}
use frama_c_snapshot.Libc.Contract.Strings.Blocks.{Writes, Writes-suc}

-- the contents of `src`, put from the place `i` on
abbrev pub from_place : ℕ → List ℕ → ℕ → Option ℕ
from_place i src k = get_elem? src (k - i)

-- One character is written at `i`, and what follows it in the source behind it.
Writes-from_place :
    (n i c : ℕ) (src dest out : List ℕ)
    → i < length dest
    → Writes n (i + 1) (from_place (i + 1) src) (set dest i c) out
    → Writes (suc n) i (from_place i (c ∷ src)) dest out
Writes-from_place n i c src dest out lt (len, inside, outside) =
    let z : i - i ≡ 0 = omega arith in
    Writes-suc n i c (from_place i (c ∷ src)) dest out lt (ap (get_elem? (c ∷ src)) z) (
      len,
      (λ k a b.
          let q : k - i ≡ suc (k - (i + 1)) = omega arith in
          inside k a b ∙ sym (ap (get_elem? (c ∷ src)) q)),
      outside,
    )

Writes-none : (i : ℕ) (content : ℕ → Option ℕ) (dest : List ℕ) → Writes 0 i content dest dest
Writes-none i content dest = (refl, (λ k a b. absurd (omega arith)), λ k _. refl)

-- a single byte
write-Writes :
    (i v : ℕ) (src dest : List ℕ)
    → i < length dest
    → Ensures (write dest i v) (Writes 1 i (from_place i (v ∷ src)) dest)
write-Writes i v src dest lt =
    let (u, t) = get_elem?_below dest i lt in
    (
      set dest i v,
      rw (write, t) refl,
      Writes-from_place 0 i v src dest (set dest i v) lt
          (Writes-none (i + 1) (from_place (i + 1) src) (set dest i v)),
    )

-- a byte, and a loop behind it
write-step :
    (n i c : ℕ) (src dest : List ℕ) (loop : List ℕ → Run (List ℕ))
    → i < length dest
    → Ensures (loop (set dest i c)) (Writes n (i + 1) (from_place (i + 1) src) (set dest i c))
    → Ensures (write dest i c >>= loop) (Writes (suc n) i (from_place i (c ∷ src)) dest)
write-step n i c src dest loop lt (out, e, w) =
    let (u, t) = get_elem?_below dest i lt in
    (out, rw (write, t, ◌>>=◌) e, Writes-from_place n i c src dest out lt w)

pub put_string-Writes :
    {src cs : List ℕ} (i : ℕ) (dest : List ℕ)
    → IsString src cs
    → i + length cs < length dest
    → Ensures (put_string i dest src) (Writes (suc (length cs)) i (from_place i src) dest)
unfolding put_string
put_string-Writes i dest (ended {rest = rest}) lt = write-Writes i 0 rest dest (omega arith)
put_string-Writes i dest (more {c = c} {s = s} {cs = cs} p b h) lt =
    let len = length-set dest i c in
    rw (put_string, p)
      (write-step (suc (length cs)) i c s dest (λ dest'. put_string (i + 1) dest' s) (omega arith)
        (put_string-Writes (i + 1) (set dest i c) h (omega (arith, len))))

pub put_prefix-Writes :
    {src cs : List ℕ} (i n : ℕ) (dest : List ℕ)
    → IsString src cs
    → i + min n (length cs) < length dest
    → Ensures
        (put_prefix i n dest src)
        (Writes (suc (min n (length cs))) i (from_place i (take n cs ++ 0 ∷ [])) dest)
unfolding put_prefix
put_prefix-Writes {cs = cs} i zero dest h lt =
    let q : min 0 (length cs) ≡ 0 = omega arith in rw q (write-Writes i 0 [] dest (omega arith))
put_prefix-Writes i (suc n) dest (ended {rest = rest}) lt =
    let q : min (suc n) 0 ≡ 0 = omega arith in rw q (write-Writes i 0 [] dest (omega arith))
put_prefix-Writes i (suc n) dest (more {c = c} {s = s} {cs = cs} p b h) lt =
    let len = length-set dest i c in
    let q : min (suc n) (suc (length cs)) ≡ suc (min n (length cs)) = omega arith in
    rw (put_prefix, p, q)
      (write-step (suc (min n (length cs))) i c (take n cs ++ 0 ∷ []) dest
        (λ dest'. put_prefix (i + 1) n dest' s) (omega arith)
        (put_prefix-Writes (i + 1) n (set dest i c) h (omega (arith, len))))

-- characters, followed by terminators, to the length `n`
abbrev pub padded : ℕ → List ℕ → List ℕ
padded zero cs = []
padded (suc n) [] = 0 ∷ padded n []
padded (suc n) (c ∷ cs) = c ∷ padded n cs

pad-Writes :
    (n i : ℕ) (dest : List ℕ)
    → i + n ≤ length dest
    → Ensures (pad i n dest) (Writes n i (from_place i (padded n [])) dest)
unfolding pad
pad-Writes zero i dest le = (dest, refl, Writes-none i (from_place i []) dest)
pad-Writes (suc n) i dest le =
    let len = length-set dest i 0 in
    write-step n i 0 (padded n []) dest (pad (i + 1) n) (omega arith)
      (pad-Writes n (i + 1) (set dest i 0) (omega (arith, len)))

-- what was written at `i` is written again
Writes-again :
    (n i v : ℕ) (content : ℕ → Option ℕ) (dest out : List ℕ)
    → Writes (suc n) i content (set dest i v) out
    → Writes (suc n) i content dest out
Writes-again n i v content dest out (len, inside, outside) =
    (len ∙ length-set dest i v, inside, λ k a. outside k a ∙ get_elem?-set_ne dest v (ground arith))

pub put_padded-Writes :
    {src cs : List ℕ} (i n : ℕ) (dest : List ℕ)
    → IsString src cs
    → i + n ≤ length dest
    → Ensures (put_padded i n dest src) (Writes n i (from_place i (padded n cs)) dest)
unfolding put_padded
put_padded-Writes i zero dest h le = (dest, refl, Writes-none i (from_place i []) dest)
put_padded-Writes i (suc n) dest (ended {rest = rest}) le =
    let len = length-set dest i 0 in
    let (u, t) = get_elem?_below dest i (omega arith) in
    let (out, e, w) = pad-Writes (suc n) i (set dest i 0) (omega (arith, len)) in
    (out, rw (write, t, ◌>>=◌) e, Writes-again n i 0 (from_place i (padded (suc n) [])) dest out w)
put_padded-Writes i (suc n) dest (more {c = c} {s = s} {cs = cs} p b h) le =
    let len = length-set dest i c in
    let loop : List ℕ → Run (List ℕ) = λ dest'. put_padded (i + 1) n dest' s in
    rw (put_padded, p)
      (write-step n i c (padded n cs) dest loop (omega arith)
        (put_padded-Writes (i + 1) n (set dest i c) h (omega (arith, len))))
