-- ===== src/Format/Validate.antt =====
-- The checks of the directives in e_acsl_format.h: that flags, precision, width and modifier apply
-- to the specifier, and the types that the arguments must have.
use frama_c_snapshot.Prelude.{
  ℕ, Bool, true, false, not, ◌&&◌, ◌||◌, List, [], ◌∷◌, ◌==◌, if◌then◌else◌, get_elem?,
}
use frama_c_snapshot.Prelude.Run.{Run, ok, abort, ◌>>=◌, ◌>>◌, vassert, of_option}
use frama_c_snapshot.Format.Abbrev.{
  Sizes, Abbrev, letter, size2abbri, abbr2ptr, i_int, i_uint, i_long, i_ulong, i_long_long,
  i_ulong_long, p_char, p_short, p_int, p_long, p_long_long,
}
use frama_c_snapshot.Format.Chars.{contains, is_class, length_id}
use frama_c_snapshot.Format.Directive.{FormatDirective, Extent, absent, star, given}

-- `validate_application`: `strchr` finds the terminator of the string too.
abbrev pub validate_application : FormatDirective → List ℕ → Run (Unit {0})
validate_application dir allowed = vassert (contains allowed dir.specifier || dir.specifier == 0)

-- an extent other than INT_MIN
abbrev pub is_present : Extent → Bool
is_present absent = false
is_present star = true
is_present (given n) = true

abbrev pub when : Bool → Run (Unit {0}) → Run (Unit {0})
when true m = m
when false m = ok tt

-- the part of `validate_applications` on flags
unfoldable pub validate_flags : FormatDirective → Run (Unit {0})
validate_flags dir =
    when dir.flags.apostroph (validate_application dir (105 ∷ 100 ∷ 117 ∷ 102 ∷ 70 ∷ 103 ∷ 71 ∷ []))
    >> when dir.flags.hash
        (validate_application dir (111 ∷ 120 ∷ 88 ∷ 97 ∷ 65 ∷ 101 ∷ 69 ∷ 102 ∷ 70 ∷ 103 ∷ 71 ∷ []))
    >> when dir.flags.zero_pad (
        validate_application dir
          (100 ∷ 105 ∷ 111 ∷ 117 ∷ 120 ∷ 88 ∷ 97 ∷ 65 ∷ 101 ∷ 69 ∷ 102 ∷ 70 ∷ 103 ∷ 71 ∷ []))
    >> when (dir.flags.specified && dir.specifier == 110) abort

-- the part on the precision and the field width
unfoldable pub validate_extents : FormatDirective → Run (Unit {0})
validate_extents dir =
    when (is_present dir.precision) (
      validate_application dir
        (100 ∷ 105 ∷ 111 ∷ 117 ∷ 120 ∷ 88 ∷ 97 ∷ 65 ∷ 101 ∷ 69 ∷ 102 ∷ 70 ∷ 103 ∷ 71 ∷ 115 ∷ []))
    >> when (dir.specifier == 110 && is_present dir.field_width) abort

-- the specifiers that a length modifier applies to
unfoldable pub validate_modifier : FormatDirective → Run (Unit {0})
validate_modifier dir =
    if dir.length_mod == 108 && not dir.extended
    then validate_application dir (
        100 ∷ 105 ∷ 111 ∷ 117 ∷ 120 ∷ 88 ∷ 110 ∷ 99 ∷ 115 ∷ 102 ∷ 70 ∷ 101 ∷ 69 ∷ 103 ∷ 71 ∷ 97 ∷ 65
        ∷ [])
    else if contains (108 ∷ 104 ∷ 106 ∷ 122 ∷ 116 ∷ []) dir.length_mod
    then validate_application dir (100 ∷ 105 ∷ 111 ∷ 117 ∷ 120 ∷ 88 ∷ 110 ∷ [])
    else if dir.length_mod == 76
    then validate_application dir (97 ∷ 65 ∷ 101 ∷ 69 ∷ 102 ∷ 70 ∷ 103 ∷ 71 ∷ [])
    else abort

unfoldable pub validate_applications : FormatDirective → Run (Unit {0})
unfolding validate_flags validate_extents validate_modifier is_class
validate_applications dir =
    validate_flags dir
    >> validate_extents dir
    >> when (not (dir.length_mod == 0))
        (is_class length_id dir.length_mod >>= λ known. vassert known >> validate_modifier dir)

module _ (sizes : Sizes) where
  -- `infer_integral_abbr`, where `sgn` is whether the type is signed
  unfoldable pub infer_integral_abbr : FormatDirective → Bool → Run Abbrev
  unfolding size2abbri
  infer_integral_abbr dir sgn =
      if dir.length_mod == 108
      then ok (
          if dir.extended
          then (if sgn then i_long_long else i_ulong_long)
          else (if sgn then i_long else i_ulong))
      else if dir.length_mod == 104
      then ok i_int
      else if dir.length_mod == 106
      then size2abbri sizes sizes.size_intmax sgn
      else if dir.length_mod == 122
      then size2abbri sizes sizes.size_size sgn
      else if dir.length_mod == 116
      then size2abbri sizes sizes.size_ptrdiff sgn
      else if dir.length_mod == 0
      then ok (if sgn then i_int else i_uint)
      else abort

  unfoldable pub infer_n_abbr : FormatDirective → Run Abbrev
  unfolding size2abbri abbr2ptr
  infer_n_abbr dir =
      if dir.length_mod == 104
      then ok (if dir.extended then p_char else p_short)
      else if dir.length_mod == 108
      then ok (if dir.extended then p_long_long else p_long)
      else if dir.length_mod == 106
      then (size2abbri sizes sizes.size_intmax true >>= abbr2ptr)
      else if dir.length_mod == 122
      then (size2abbri sizes sizes.size_size false >>= abbr2ptr)
      else if dir.length_mod == 116
      then (size2abbri sizes sizes.size_ptrdiff true >>= abbr2ptr)
      else if dir.length_mod == 0
      then ok p_int
      else abort

-- `validate_format_type`: an index out of the description is a fault.
unfoldable pub validate_format_type : Abbrev → List ℕ → FormatDirective → Run (Unit {0})
validate_format_type expected_t fmtdesc dir =
    of_option (get_elem? fmtdesc dir.index) >>= λ actual_t. vassert (actual_t == letter expected_t)
