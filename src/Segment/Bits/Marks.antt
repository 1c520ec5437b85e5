-- ===== src/Segment/Bits/Marks.antt =====
-- Which bits of memory the operations of e_acsl_bits.h set.
use frama_c_snapshot.Prelude.{
  ℕ, zero, suc, ◌+◌, ◌-◌, ◌*◌, ◌/◌, ◌%◌, ◌<◌, ◌≤◌, ◌≡◌, refl, ap, ◌∙◌, arith, inl, inr, true, false,
  ◌&&◌, leb, ltb, Bool-cases, if◌then◌else◌, max,
}
use frama_c_snapshot.Prelude.Bits.{
  pow2, shr, shr_halve, shr-add, shr-zero, digit-bit_or, pow2_pos, pow2_mono,
}
use frama_c_snapshot.Mmodel.Bits.{one64, low_ones}
use frama_c_snapshot.Segment.Words.{
  Bytes, Outside, byte_of, or_word, or_word-Outside, or_word-byte_of,
}
use frama_c_snapshot.Segment.Bits

-- the digits of a byte of a word
pub digit_low : (x j : ℕ) → j < 8 → shr (x % 256) j % 2 ≡ shr x j % 2
digit_low x zero p = omega arith
digit_low x (suc zero) p = omega arith
digit_low x (suc (suc zero)) p = omega arith
digit_low x (suc (suc (suc zero))) p = omega arith
digit_low x (suc (suc (suc (suc zero)))) p = omega arith
digit_low x (suc (suc (suc (suc (suc zero))))) p = omega arith
digit_low x (suc (suc (suc (suc (suc (suc zero)))))) p = omega arith
digit_low x (suc (suc (suc (suc (suc (suc (suc zero))))))) p = omega arith
digit_low x (suc (suc (suc (suc (suc (suc (suc (suc j)))))))) p = absurd (omega arith)

byte_of-shr : (i v : ℕ) → byte_of i v ≡ shr v (8 * i) % 256
unfolding byte_of
byte_of-shr zero v = refl
byte_of-shr (suc i) v =
    let at : 8 * suc i ≡ 8 + 8 * i = omega arith in
    let eight : v / 256 ≡ shr v 8 = omega arith in
    byte_of-shr i (v / 256) ∙ rw (at, ← shr-add v 8 (8 * i), eight) refl

pub digit-byte_of : (i j v : ℕ) → j < 8 → shr (byte_of i v) j % 2 ≡ shr v (8 * i + j) % 2
digit-byte_of i j v p =
    rw (byte_of-shr i v, digit_low (shr v (8 * i)) j p, shr-add v (8 * i) j) refl

-- whether `d` is below `n`, as a digit
abbrev pub below : ℕ → ℕ → ℕ
below d n = if ltb d n then 1 else 0

digit_ones : (n d : ℕ) → shr (pow2 n - 1) d % 2 ≡ below d n
digit_ones zero d = rw (shr-zero d) (ground arith)
digit_ones (suc n) zero =
    let one : below 0 (suc n) ≡ 1 = ground arith in rw one (omega (arith, pow2_pos n))
digit_ones (suc n) (suc d) =
    let e : (pow2 n * 2 - 1) / 2 ≡ pow2 n - 1 = omega (arith, pow2_pos n) in
    rw (← shr_halve (pow2 n * 2 - 1) d, e, digit_ones n d) (ground arith)

low_ones-pow2 : (n : ℕ) → n ≤ 64 → low_ones n ≡ pow2 n - 1
low_ones-pow2 n p = omega (arith, pow2_pos n, pow2_mono n 64 p)

pub digit-low_ones : (n d : ℕ) → n ≤ 64 → shr (low_ones n) d % 2 ≡ below d n
digit-low_ones n d p = rw (low_ones-pow2 n p) (digit_ones n d)

digit-one64 : (d : ℕ) → d < 64 → shr one64 d % 2 ≡ 1
digit-one64 d p = digit_ones 64 d ∙ ground arith

-- a word that is ORed into memory
pub bit-or_word :
    (a v b : ℕ) (m : Bytes)
    → 8 * a ≤ b
    → b < 8 * a + 64
    → Bits.bit b (or_word 8 a v m) ≡ max (Bits.bit b m) (shr v (b - 8 * a) % 2)
unfolding Bits.bit
bit-or_word a v b m p q =
    let at : a + (b / 8 - a) ≡ b / 8 = omega arith in
    let place : 8 * (b / 8 - a) + b % 8 ≡ b - 8 * a = omega arith in
    let byte = rw at at (or_word-byte_of 8 (b / 8 - a) a v m (omega arith)) in
    rw
      (
        byte,
        digit-bit_or (m (b / 8)) (byte_of (b / 8 - a) v) (b % 8),
        digit-byte_of (b / 8 - a) (b % 8) v (omega arith),
        place,
      )
      refl

pub bit-or_word-Outside :
    (a v b : ℕ) (m : Bytes) → Outside (8 * a) 64 b → Bits.bit b (or_word 8 a v m) ≡ Bits.bit b m
unfolding Bits.bit
bit-or_word-Outside a v b m o = rw (or_word-Outside 8 a v (b / 8) m (omega arith)) refl

-- whether the bit `b` is one of `n` from the byte `a` on
abbrev pub within : ℕ → ℕ → ℕ → ℕ
within a n b = if leb (8 * a) b && ltb b (8 * a + n) then 1 else 0

pub bit_le_one : (b : ℕ) (m : Bytes) → Bits.bit b m ≤ 1
unfolding Bits.bit
bit_le_one b m = omega arith

or_ones :
    (n a b : ℕ) (m : Bytes)
    → n ≤ 64
    → Bits.bit b (or_word 8 a (low_ones n) m) ≡ max (Bits.bit b m) (within a n b)
or_ones n a b m p = elim (Bool-cases (leb (8 * a) b && ltb b (8 * a + 64))) [
  | inl i ↦
      let same : below (b - 8 * a) n ≡ within a n b = ground arith in
      bit-or_word a (low_ones n) b m (ground arith) (ground arith)
      ∙ ap (max (Bits.bit b m)) (digit-low_ones n (b - 8 * a) p ∙ same)
  | inr i ↦
      let none : within a n b ≡ 0 = ground arith in
      bit-or_word-Outside a (low_ones n) b m (ground arith) ∙ rw none (omega arith)
]

set_words_lem :
    (n a b : ℕ) (m : Bytes)
    → Bits.bit b (Bits.set_words n a m) ≡ max (Bits.bit b m) (within a (64 * n) b)
unfolding Bits.set_words
set_words_lem zero a b m =
    let none : within a (64 * 0) b ≡ 0 = ground arith in rw none (omega arith)
set_words_lem (suc n) a b m =
    let first = or_ones 64 a b m (omega arith) in
    let rest = set_words_lem n (a + 8) b (or_word 8 a one64 m) in
    let join : max (within a 64 b) (within (a + 8) (64 * n) b) ≡ within a (64 * suc n) b =
      ground arith in
    rest ∙ rw (first, ← join) (omega arith)

-- `setbits` sets the `size` bits from the byte `a` on, and no other.
pub set_bits_lem :
    (size a b : ℕ) (m : Bytes)
    → Bits.bit b (Bits.set_bits size a m) ≡ max (Bits.bit b m) (within a size b)
unfolding Bits.set_bits
set_bits_lem size a b m =
    let words = set_words_lem (size / 64) a b m in
    let rest =
      or_ones (size % 64) (a + 8 * (size / 64)) b (Bits.set_words (size / 64) a m) (omega arith) in
    let join : max (within a (64 * (size / 64)) b) (within (a + 8 * (size / 64)) (size % 64) b)
        ≡ within a size b =
      ground arith in
    rest ∙ rw (words, ← join) (omega arith)

-- the digits of a word that is shifted to the left
pub digit_shifted :
    (v s j : ℕ) → shr (v * pow2 s) j % 2 ≡ (if leb s j then shr v (j - s) % 2 else 0)
digit_shifted v zero j =
    let e : v * 1 ≡ v = omega arith in
    let z : leb 0 j ≡ true = ground arith in let d : j - 0 ≡ j = omega arith in rw (e, z, d) refl
digit_shifted v (suc s) zero = let z : leb (suc s) 0 ≡ false = ground arith in rw z (omega arith)
digit_shifted v (suc s) (suc j) =
    let e : v * (pow2 s * 2) / 2 ≡ v * pow2 s = omega arith in
    let d : suc j - suc s ≡ j - s = omega arith in
    let z : leb (suc s) (suc j) ≡ leb s j = ground arith in
    rw (← shr_halve (v * (pow2 s * 2)) j, e, digit_shifted v s j, d, z) refl
