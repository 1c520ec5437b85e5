-- ===== src/Segment/Bits.antt =====
-- The bit arrays of e_acsl_bits.h, on memory by bytes: the bit `b` of memory is the digit `b % 8` of
-- the byte at `b / 8`. Words have 64 bits.
pub mod Marks
use frama_c_snapshot.Prelude.{
  ℕ, zero, suc, ◌+◌, ◌-◌, ◌*◌, ◌/◌, ◌%◌, Bool, true, false, ◌&&◌, ◌==◌, if◌then◌else◌, bit_and,
}
use frama_c_snapshot.Prelude.Bits.{pow2, shr}
use frama_c_snapshot.Mmodel.Bits.{one64, low_ones}
use frama_c_snapshot.Segment.Words.{Bytes, store, load, or_word, has_bits}

-- the loop of `setbits` over the whole words
unfoldable pub set_words : ℕ → ℕ → Bytes → Bytes
unfolding or_word
set_words zero ptr m = m
set_words (suc n) ptr m = set_words n (ptr + 8) (or_word 8 ptr one64 m)

-- `setbits(size_t size, void *ptr)`
unfoldable pub set_bits : ℕ → ℕ → Bytes → Bytes
unfolding set_words or_word
set_bits size ptr m =
    or_word 8 (ptr + 8 * (size / 64)) (low_ones (size % 64)) (set_words (size / 64) ptr m)

-- the loop of `checkbits` over the whole words
unfoldable pub check_words : ℕ → ℕ → Bytes → Bool
unfolding load
check_words zero ptr m = true
check_words (suc n) ptr m = load 8 ptr m == one64 && check_words n (ptr + 8) m

-- `checkbits(size_t size, void *ptr)`
unfoldable pub checkbits : ℕ → ℕ → Bytes → Bool
unfolding check_words has_bits
checkbits size ptr m =
    check_words (size / 64) ptr m && has_bits 8 (ptr + 8 * (size / 64)) (low_ones (size % 64)) m

-- the loop of `clearbits_right` over the whole words, each below the one before
unfoldable pub clear_words_right : ℕ → ℕ → Bytes → Bytes
unfolding store
clear_words_right zero ptr m = m
clear_words_right (suc n) ptr m = clear_words_right n (ptr - 8) (store 8 (ptr - 8) 0 m)

-- `clearbits_right(size_t size, void *ptr)`
unfoldable pub clearbits_right : ℕ → ℕ → Bytes → Bytes
unfolding clear_words_right store load
clearbits_right size ptr m =
    let cleared = clear_words_right (size / 64) ptr m in
    let last = ptr - 8 * (size / 64) - 8 in
    store 8 last (bit_and (load 8 last cleared) (one64 / pow2 (size % 64))) cleared

-- a bit of memory
unfoldable pub bit : ℕ → Bytes → ℕ
bit b m = shr (m (b / 8)) (b % 8) % 2
