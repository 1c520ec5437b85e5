-- ===== src/Checked/Spaces.antt =====
-- The checks of e_acsl_libc_replacements.h on strings and on regions of memory, over a memory model.
-- A length `n` is `none` where the source passes -1, and is below 2^63 otherwise.
pub mod Strings
use frama_c_snapshot.Prelude.{
  ℕ, zero, suc, ◌+◌, ◌-◌, ◌*◌, ◌/◌, ◌%◌, Bool, true, false, ◌&&◌, ◌||◌, not, Option, none, some,
  ◌==◌, leb, ltb, if◌then◌else◌,
}
use frama_c_snapshot.Prelude.Bits.{pow2}
use frama_c_snapshot.Prelude.Run.{Run, ok, abort, fault, ◌>>=◌, ◌>>◌}
use frama_c_snapshot.Segment.Words.{Bytes, load}
use frama_c_snapshot.Segment.Static.{sub_word}

-- The interface of a memory model that the checks use.
pub record Tracking : Type 0 where
  pub allocated : ℕ → ℕ → ℕ → Run Bool
  pub readonly : ℕ → Run Bool
  pub writeable : ℕ → ℕ → ℕ → Run Bool
  pub block_length : ℕ → Run ℕ
  pub offset : ℕ → Run ℕ

-- What `valid_nstring` returns: a length, or -1, -2, -3, -4.
pub data Verdict : Type 0 where
  measured : ℕ → Verdict
  unallocated not_writeable too_short unterminated : Verdict

-- whether the loop of `valid_nstring` stops at the place `i` because of its bound
unfoldable pub at_bound : Option ℕ → ℕ → Bool
at_bound none i = false
at_bound (some n) i = n == i

-- the loop of `valid_nstring` over the `left` elements from the place `i` on
unfoldable pub scan : (ℕ → ℕ) → Option ℕ → ℕ → ℕ → Option ℕ
unfolding at_bound
scan element n zero i = none
scan element n (suc left) i =
    let rest = scan element n left (i + 1) in
    if element i == 0 || at_bound n i then some i else rest

-- the end of `valid_nstring`, where the loop found no place
unfoldable pub verdict : Option ℕ → ℕ → Option ℕ → Verdict
verdict n size (some i) = measured i
verdict none size none = unterminated
verdict (some n) size none =
    if n == size then measured n else if ltb size n then too_short else unterminated

-- `disjoint_spaces`, on words
unfoldable pub disjoint_spaces : ℕ → ℕ → ℕ → ℕ → Bool
disjoint_spaces s1 s1_sz s2 s2_sz =
    leb ((s1 + s1_sz) % pow2 64) s2 || leb ((s2 + s2_sz) % pow2 64) s1

unfoldable pub validate_overlapping_spaces : ℕ → ℕ → ℕ → ℕ → Run (Unit {0})
unfolding disjoint_spaces
validate_overlapping_spaces s1 s1_sz s2 s2_sz =
    if disjoint_spaces s1 s1_sz s2 s2_sz then ok tt else abort

module _ (t : Tracking) where
  -- both valid functions, on strings of elements of `width` bytes
  unfoldable pub valid_elements : ℕ → (ℕ → ℕ) → ℕ → Option ℕ → Bool → Run Verdict
  unfolding at_bound scan verdict
  valid_elements width element s n wrtbl =
      if at_bound n 0
      then ok (measured 0)
      else t.allocated s 1 s >>= λ alc. elim alc [
        | false ↦ ok unallocated
        | true ↦ (if wrtbl then t.readonly s else ok false) >>= λ fixed. elim fixed [
          | true ↦ ok not_writeable
          | false ↦ t.block_length s >>= λ len. t.offset s >>= λ off.
              let size = sub_word len off / width in ok (verdict n size (scan element n size 0))
        ]
      ]

  unfoldable pub valid_nstring : Bytes → ℕ → Option ℕ → Bool → Run Verdict
  unfolding valid_elements
  valid_nstring m s n wrtbl = valid_elements 1 (λ i. m (s + i)) s n wrtbl

  unfoldable pub valid_nwstring : Bytes → ℕ → Option ℕ → Bool → Run Verdict
  unfolding valid_elements load
  valid_nwstring m s n wrtbl = valid_elements 4 (λ i. load 4 (s + 4 * i) m) s n wrtbl

  unfoldable pub valid_string : Bytes → ℕ → Bool → Run Verdict
  unfolding valid_nstring
  valid_string m s wrtbl = valid_nstring m s none wrtbl

  unfoldable pub valid_wstring : Bytes → ℕ → Bool → Run Verdict
  unfolding valid_nwstring
  valid_wstring m s wrtbl = valid_nwstring m s none wrtbl

  unfoldable pub validate_string : Bytes → ℕ → Option ℕ → Bool → Run ℕ
  unfolding valid_nstring
  validate_string m s n wrtbl =
      valid_nstring m s n wrtbl >>= λ v. elim v [ measured size ↦ ok size | _ ↦ abort ]

  unfoldable pub validate_writeable_string : Bytes → ℕ → Option ℕ → Run ℕ
  unfolding validate_string
  validate_writeable_string m s n = validate_string m s n true

  unfoldable pub validate_allocated_string : Bytes → ℕ → Option ℕ → Run ℕ
  unfolding validate_string
  validate_allocated_string m s n = validate_string m s n false

  unfoldable pub validate_allocated_space : ℕ → ℕ → Run (Unit {0})
  validate_allocated_space p sz = t.allocated p sz p >>= λ a. if a then ok tt else abort

  unfoldable pub validate_writeable_space : ℕ → ℕ → Run (Unit {0})
  validate_writeable_space p sz =
      t.writeable p sz p >>= λ a. elim a [ true ↦ ok tt | false ↦ t.writeable p 1 p >>= λ _. abort ]
