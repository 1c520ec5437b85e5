-- ===== src/Libc/Inttypes.antt =====
-- `imaxabs` and `imaxdiv` of share/libc/inttypes.c. An `intmax_t` is the word of its 64 bits; an
-- operation that overflows, or a division by 0, is a fault.
use frama_c_snapshot.Prelude.{ℕ, ◌-◌, ◌/◌, ◌%◌, Bool, not, ◌&&◌, ◌==◌, ltb, if◌then◌else◌}
use frama_c_snapshot.Prelude.Bits.{pow2}
use frama_c_snapshot.Prelude.Run.{Run, ok, fault}

abbrev is_negative : ℕ → Bool
is_negative v = not (ltb v (pow2 63))

-- the word of an opposite
abbrev pub neg_max : ℕ → ℕ
neg_max v = (pow2 64 - v) % pow2 64

abbrev signed : Bool → ℕ → ℕ
signed neg v = if neg then neg_max v else v

abbrev magnitude : ℕ → ℕ
magnitude v = signed (is_negative v) v

unfoldable pub imaxabs : ℕ → Run ℕ
imaxabs c = if c == pow2 63 then fault else if is_negative c then ok (neg_max c) else ok c

pub record ImaxdivT : Type 0 where
  pub quot : ℕ
  pub rem : ℕ

-- C rounds the quotient to 0, and the remainder has the sign of the numerator.
unfoldable pub imaxdiv : ℕ → ℕ → Run ImaxdivT
imaxdiv numer denom =
    let overflow = (numer == pow2 63) && (denom == pow2 64 - 1) in
    let quotient = magnitude numer / magnitude denom in
    let remainder = magnitude numer % magnitude denom in
    let positive = if is_negative numer then is_negative denom else not (is_negative denom) in
    if denom == 0
    then fault
    else if overflow
    then fault
    else ok (record {
      quot = signed (not positive) quotient;
      rem = signed (is_negative numer) remainder;
    })
