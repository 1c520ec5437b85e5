-- ===== src/Libc/Entropy/Bounds.antt =====
-- The contracts of share/libc/__fc_builtin.h, and which values the functions can return.
use frama_c_snapshot.Prelude.{
  ℕ, zero, suc, ◌+◌, ◌%◌, ◌<◌, ◌≤◌, ◌≡◌, ◌⊎◌, ◌↔◌, refl, Bool, true, false, ◌&&◌, List, ◌==◌, inl,
  inr, Bool-cases, arith, length, get_elem?, set, length-set, get_elem?-set_ne, sym, ◌∙◌,
  if◌then◌else◌,
}
use frama_c_snapshot.Prelude.Bits.{pow2}
use frama_c_snapshot.Prelude.Run.{ok}
use frama_c_snapshot.Libc.Bytes.{write}
use frama_c_snapshot.Libc.Bytes.Move.{get_elem?_below}
use frama_c_snapshot.Libc.Entropy.{
  Entropy, signed_leb, frama_c_nondet, frama_c_interval, frama_c_char_interval,
  frama_c_float_interval, frama_c_update_entropy, fill_unknown, frama_c_make_unknown,
}

-- A value that some run of a function returns.
abbrev pub CanReturn {ℓ} : {A : Type ℓ} → (Entropy → A × Entropy) → A → Type ℓ
CanReturn f r = (e : Entropy) × ((f e).0 ≡ r)

-- `result_a_or_b`
abbrev pub AOrB {ℓ} : {A : Type ℓ} → A → A → A → Type ℓ
AOrB a b r = (r ≡ a) ⊎ (r ≡ b)

-- `result_bounded`, for signed words of `w + 1` bits
abbrev pub IsBounded : ℕ → ℕ → ℕ → ℕ → Type 0
IsBounded w min max r = (signed_leb w min r && signed_leb w r max) ≡ true

if-AOrB {ℓ} : {A : Type ℓ} (t : Bool) (a b r : A) → (if t then b else a) ≡ r → AOrB a b r
if-AOrB true a b r h = inr (sym h)
if-AOrB false a b r h = inl (sym h)

-- What `Frama_C_nondet` can return is one of its arguments, and each of them can be returned.
pub frama_c_nondet-AOrB {ℓ} :
    {A : Type ℓ} (a b r : A) → CanReturn (frama_c_nondet a b) r ↔ AOrB a b r
unfolding frama_c_nondet
frama_c_nondet-AOrB a b r = (
  (λ (e, h). if-AOrB (e 1 % pow2 32 == 0) a b r h),
  λ o. elim o [ inl p ↦ ((λ _. 1), sym p) | inr p ↦ ((λ _. 0), sym p) ],
)

-- a value that passes a test, or else one that is known to pass it
if-passes :
    (test : ℕ → Bool) (aux min r : ℕ)
    → test min ≡ true
    → (if test aux then aux else min) ≡ r
    → test r ≡ true
if-passes test aux min r m h = elim (Bool-cases (test aux)) [
  | inl e ↦ let same : aux ≡ r = rw e at h in rw (sym same) e
  | inr e ↦ let same : min ≡ r = rw e at h in rw (sym same) m
]

if-passed : (test : Bool) (r min : ℕ) → test ≡ true → (if test then r else min) ≡ r
if-passed true r min e = refl
if-passed false r min e = cc

signed_leb_refl : (w a : ℕ) → signed_leb w a a ≡ true
signed_leb_refl w a = ground arith

minimum-IsBounded : (w min max : ℕ) → signed_leb w min max ≡ true → IsBounded w min max min
minimum-IsBounded w min max order = rw (signed_leb_refl w min, order) refl

-- For a minimum that is not above the maximum, `Frama_C_interval` can return exactly the `int`s
-- between them.
pub frama_c_interval-IsBounded :
    (min max r : ℕ)
    → r < pow2 32
    → signed_leb 31 min max ≡ true
    → CanReturn (frama_c_interval min max) r ↔ IsBounded 31 min max r
unfolding frama_c_interval
frama_c_interval-IsBounded min max r word order =
    let test : ℕ → Bool = λ x. signed_leb 31 min x && signed_leb 31 x max in
    let low : test min ≡ true = minimum-IsBounded 31 min max order in
    (
      (λ (e, h). if-passes test (e 1 % pow2 32) min r low h),
      λ b.
          let same : r % pow2 32 ≡ r = omega arith in
          ((λ _. r), rw same (if-passed (test r) r min b)),
    )

-- The same for `Frama_C_char_interval` and `char`s.
pub frama_c_char_interval-IsBounded :
    (min max r : ℕ)
    → r < 256
    → signed_leb 7 min max ≡ true
    → CanReturn (frama_c_char_interval min max) r ↔ IsBounded 7 min max r
unfolding frama_c_char_interval
frama_c_char_interval-IsBounded min max r byte order =
    let test : ℕ → Bool = λ x. signed_leb 7 min x && signed_leb 7 x max in
    let low : test min ≡ true = minimum-IsBounded 7 min max order in
    (
      (λ (e, h). if-passes test (e 1 % pow2 32 % 256) min r low h),
      λ b.
          let same : r % pow2 32 % 256 ≡ r = omega arith in
          ((λ _. r), rw same (if-passed (test r) r min b)),
    )

-- `Frama_C_float_interval` returns no other value than its two arguments, so none that lies
-- strictly between them.
pub frama_c_float_interval-AOrB {ℓ} :
    {A : Type ℓ} (min max r : A) → CanReturn (frama_c_float_interval min max) r → AOrB min max r
unfolding frama_c_float_interval
frama_c_float_interval-AOrB min max r (e, h) = if-AOrB (e 1 % pow2 32 == 0) min max r h

-- `fill_unknown` at `l` offsets from `i` inside of an object
fill_unknown_lem :
    (l i : ℕ) (p : List ℕ) (e : Entropy)
    → i + l ≤ length p
    → (out : List ℕ) × (e' : Entropy) × (fill_unknown l i p e ≡ ok (out, e'))
      × (length out ≡ length p)
      × ((k : ℕ) → (k < i) ⊎ (i + l ≤ k) → get_elem? out k ≡ get_elem? p k)
unfolding fill_unknown
fill_unknown_lem zero i p e h = (p, e, refl, refl, λ k _. refl)
fill_unknown_lem (suc l) i p e h =
    let v = e 0 % pow2 32 % 256 in
    let len : length (set p i v) ≡ length p = length-set p i v in
    let (u, t) = get_elem?_below p i (omega arith) in
    let (out, e', f, n, keep) =
      fill_unknown_lem l (i + 1) (set p i v) (λ n. e (suc n)) (omega (arith, len)) in
    (
      out,
      e',
      rw (fill_unknown, write, t) f,
      n ∙ len,
      λ k a. keep k (ground arith) ∙ get_elem?-set_ne p v (ground arith),
    )

-- `Frama_C_make_unknown` of the first `l` bytes of an object that has so many returns, and leaves
-- the length of the object and its other bytes as they were.
pub frama_c_make_unknown-length :
    (l : ℕ) (p : List ℕ) (e : Entropy)
    → l ≤ length p
    → (out : List ℕ) × (e' : Entropy) × (frama_c_make_unknown p l e ≡ ok (out, e'))
      × (length out ≡ length p)
      × ((k : ℕ) → l ≤ k → get_elem? out k ≡ get_elem? p k)
unfolding frama_c_make_unknown
frama_c_make_unknown-length l p e h =
    let (out, e', f, n, keep) = fill_unknown_lem l 0 p (frama_c_update_entropy e) (omega arith) in
    (out, e', f, n, λ k a. keep k (inr (omega arith)))

-- between two numbers below 2^31, as numbers
pub frama_c_interval-le :
    (min max : ℕ) (e : Entropy)
    → min ≤ max
    → max < pow2 31
    → (min ≤ (frama_c_interval min max e).0) × ((frama_c_interval min max e).0 ≤ max)
unfolding frama_c_interval
frama_c_interval-le min max e h k = ground arith
