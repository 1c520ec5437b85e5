-- ===== src/Checked/Calls.antt =====
-- The replacements of the string functions in e_acsl_libc_replacements.h. What the function of the C
-- library does after the checks is an argument, `call`.
pub mod Safe
use frama_c_snapshot.Prelude.{ℕ, ◌+◌, ◌-◌, ◌%◌, none, some, leb, if◌then◌else◌}
use frama_c_snapshot.Prelude.Bits.{pow2}
use frama_c_snapshot.Prelude.Run.{Run, ok, abort, fault, ◌>>=◌, ◌>>◌}
use frama_c_snapshot.Segment.Words.{Bytes}
use frama_c_snapshot.Segment.Static.{sub_word}
use frama_c_snapshot.Checked.Spaces

module _ {ℓ} (t : Spaces.Tracking) (m : Bytes) {A : Type ℓ} (call : A) where
  unfoldable pub builtin_strcpy : ℕ → ℕ → Run A
  unfolding Spaces.validate_allocated_string Spaces.validate_writeable_space
      Spaces.validate_overlapping_spaces
  builtin_strcpy dest src = Spaces.validate_allocated_string t m src none >>= λ size.
      Spaces.validate_writeable_space t dest (size + 1)
      >> (Spaces.validate_overlapping_spaces dest (size + 1) src (size + 1) >> ok call)

  unfoldable pub builtin_strncpy : ℕ → ℕ → ℕ → Run A
  unfolding Spaces.validate_allocated_string Spaces.validate_writeable_space
      Spaces.validate_overlapping_spaces
  builtin_strncpy dest src n = Spaces.validate_allocated_string t m src (some n) >>= λ size.
      Spaces.validate_writeable_space t dest n
      >> (Spaces.validate_overlapping_spaces dest n src n >> ok call)

  unfoldable pub builtin_strcmp : ℕ → ℕ → Run A
  unfolding Spaces.validate_allocated_string
  builtin_strcmp s1 s2 = Spaces.validate_allocated_string t m s1 none >>= λ _.
      Spaces.validate_allocated_string t m s2 none >>= λ _. ok call

  unfoldable pub builtin_strncmp : ℕ → ℕ → ℕ → Run A
  unfolding Spaces.validate_allocated_string
  builtin_strncmp s1 s2 n = Spaces.validate_allocated_string t m s1 (some n) >>= λ _.
      Spaces.validate_allocated_string t m s2 (some n) >>= λ _. ok call

  -- the bytes from an address to the end of its block
  unfoldable pub avail_sz : ℕ → Run ℕ
  avail_sz dest = t.block_length dest >>= λ len. t.offset dest >>= λ off. ok (sub_word len off)

  unfoldable pub builtin_strcat : ℕ → ℕ → Run A
  unfolding Spaces.validate_allocated_string Spaces.validate_writeable_string
      Spaces.validate_overlapping_spaces avail_sz
  builtin_strcat dest src = Spaces.validate_allocated_string t m src none >>= λ src_sz.
      Spaces.validate_writeable_string t m dest none >>= λ dest_sz. avail_sz dest >>= λ avail.
      if leb ((src_sz + dest_sz + 1) % pow2 64) avail
      then (Spaces.validate_overlapping_spaces src (src_sz + 1) dest (dest_sz + 1) >> ok call)
      else abort

  unfoldable pub builtin_strncat : ℕ → ℕ → ℕ → Run A
  unfolding Spaces.validate_allocated_string Spaces.validate_writeable_string
      Spaces.validate_overlapping_spaces avail_sz
  builtin_strncat dest src n = Spaces.validate_allocated_string t m src (some n) >>= λ _.
      Spaces.validate_writeable_string t m dest none >>= λ dest_sz. avail_sz dest >>= λ avail.
      if leb ((n + dest_sz + 1) % pow2 64) avail
      then (Spaces.validate_overlapping_spaces src n dest dest_sz >> ok call)
      else abort

  unfoldable pub builtin_memcpy : ℕ → ℕ → ℕ → Run A
  unfolding Spaces.validate_allocated_space Spaces.validate_writeable_space
      Spaces.validate_overlapping_spaces
  builtin_memcpy dest src n =
      Spaces.validate_allocated_space t src n
      >> (Spaces.validate_writeable_space t dest n
          >> (Spaces.validate_overlapping_spaces src n dest n >> ok call))

  unfoldable pub builtin_memset : ℕ → ℕ → Run A
  unfolding Spaces.validate_writeable_space
  builtin_memset s n = Spaces.validate_writeable_space t s n >> ok call

  unfoldable pub builtin_memcmp : ℕ → ℕ → ℕ → Run A
  unfolding Spaces.validate_allocated_space Spaces.validate_overlapping_spaces
  builtin_memcmp s1 s2 n =
      Spaces.validate_allocated_space t s1 n
      >> (Spaces.validate_allocated_space t s2 n
          >> (Spaces.validate_overlapping_spaces s1 n s2 n >> ok call))

  unfoldable pub builtin_memmove : ℕ → ℕ → ℕ → Run A
  unfolding Spaces.validate_allocated_space Spaces.validate_writeable_space
  builtin_memmove dest src n =
      Spaces.validate_allocated_space t src n
      >> (Spaces.validate_writeable_space t dest n >> ok call)

unfoldable pub builtin_strlen : Spaces.Tracking → Bytes → ℕ → Run ℕ
unfolding Spaces.validate_allocated_string
builtin_strlen t m s = Spaces.validate_allocated_string t m s none
