-- ===== src/Libc/Finite.antt =====
-- `__finitef` and `__finite` of share/libc/math.c, on the 16-bit words of a number, from the lowest
-- one on: two words of a `float` and four of a `double`.
use frama_c_snapshot.Prelude.{ℕ, bit_and, ◌≡◌, refl, Bool, true, false, not, ◌==◌}
use frama_c_snapshot.Prelude.Bits.{shr}

-- the test that the two functions share, on the word with the exponent
unfoldable pub finite_word : ℕ → Bool
finite_word w = not (shr (bit_and w 0x7F80) 7 == 0xff)

unfoldable pub finitef : ℕ × ℕ → Bool
unfolding finite_word
finitef (low, high) = finite_word high

unfoldable pub finite : ℕ × ℕ × ℕ × ℕ → Bool
unfolding finite_word
finite (w0, w1, w2, w3) = finite_word w3

-- What IEEE 754 says of a double: it is finite unless all 11 bits of the exponent are ones.
abbrev pub finite_double : ℕ × ℕ × ℕ × ℕ → Bool
finite_double (w0, w1, w2, w3) = not (bit_and w3 0x7FF0 == 0x7FF0)

-- 2^1017 is a finite number, and `finite` returns false for it.
finite-large_double : (finite (0, 0, 0, 0x7F80) ≡ false) × (finite_double (0, 0, 0, 0x7F80) ≡ true)
unfolding finite
finite-large_double = (refl, refl)
