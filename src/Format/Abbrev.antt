-- ===== src/Format/Abbrev.antt =====
-- The abbreviated types of e_acsl_format.h. The sizes of C's types are an argument.
use frama_c_snapshot.Prelude.{ℕ, Bool, ◌==◌, leb, if◌then◌else◌}
use frama_c_snapshot.Prelude.Run.{Run, ok, abort}

-- `sizeof` of the types that the formats use
pub record Sizes : Type 0 where
  pub size_short : ℕ
  pub size_int : ℕ
  pub size_long : ℕ
  pub size_long_long : ℕ
  pub size_float : ℕ
  pub size_double : ℕ
  pub size_long_double : ℕ
  pub size_pointer : ℕ
  pub size_intmax : ℕ
  pub size_size : ℕ
  pub size_ptrdiff : ℕ
  pub size_wint : ℕ

-- `abbrev_t`
pub data Abbrev : Type 0 where
  i_char i_uchar i_short i_ushort i_int i_uint i_long i_ulong i_long_long i_ulong_long : Abbrev
  f_float f_double f_long_double : Abbrev
  p_char p_uchar p_short p_ushort p_int p_uint p_long p_ulong p_long_long p_ulong_long : Abbrev
  p_void : Abbrev

-- the character of an abbreviated type
abbrev pub letter : Abbrev → ℕ
letter i_char = 99
letter i_uchar = 67
letter i_short = 104
letter i_ushort = 72
letter i_int = 100
letter i_uint = 68
letter i_long = 108
letter i_ulong = 76
letter i_long_long = 114
letter i_ulong_long = 82
letter f_float = 102
letter f_double = 101
letter f_long_double = 69
letter p_char = 115
letter p_uchar = 83
letter p_short = 113
letter p_ushort = 81
letter p_int = 105
letter p_uint = 73
letter p_long = 122
letter p_ulong = 90
letter p_long_long = 119
letter p_ulong_long = 87
letter p_void = 112

module _ (sizes : Sizes) where
  -- `abbr2size`
  abbrev pub abbr2size : Abbrev → ℕ
  abbr2size i_char = 1
  abbr2size i_uchar = 1
  abbr2size i_short = sizes.size_short
  abbr2size i_ushort = sizes.size_short
  abbr2size i_int = sizes.size_int
  abbr2size i_uint = sizes.size_int
  abbr2size i_long = sizes.size_long
  abbr2size i_ulong = sizes.size_long
  abbr2size i_long_long = sizes.size_long_long
  abbr2size i_ulong_long = sizes.size_long_long
  abbr2size f_float = sizes.size_float
  abbr2size f_double = sizes.size_double
  abbr2size f_long_double = sizes.size_long_double
  abbr2size _ = sizes.size_pointer

  -- `size2abbri`, where the sign is whether the type is signed
  unfoldable pub size2abbri : ℕ → Bool → Run Abbrev
  size2abbri size sign =
      if leb size sizes.size_int
      then ok (if sign then i_int else i_uint)
      else if size == sizes.size_long
      then ok (if sign then i_long else i_ulong)
      else if size == sizes.size_long_long
      then ok (if sign then i_long_long else i_ulong_long)
      else abort

  unfoldable pub size2abbrf : ℕ → Run Abbrev
  size2abbrf size =
      if size == sizes.size_float
      then ok f_float
      else if size == sizes.size_double
      then ok f_double
      else if size == sizes.size_long_double
      then ok f_long_double
      else abort

-- `abbr2ptr`
unfoldable pub abbr2ptr : Abbrev → Run Abbrev
abbr2ptr i_int = ok p_int
abbr2ptr i_uint = ok p_uint
abbr2ptr i_long = ok p_long
abbr2ptr i_ulong = ok p_ulong
abbr2ptr i_long_long = ok p_long_long
abbr2ptr i_ulong_long = ok p_ulong_long
abbr2ptr _ = abort
