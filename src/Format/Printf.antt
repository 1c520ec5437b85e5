-- ===== src/Format/Printf.antt =====
-- `validate_format` and the checked functions of the printf family in e_acsl_format.h, over a memory
-- model. A format string and a format description are the bytes from them to the end of their
-- objects; the arguments are the words that `va_arg` reads. What the system says of a stream or of a
-- file descriptor, what `vsnprintf` counts, and what the function of the C library does after the
-- checks (`call`) are arguments.
pub mod Writes
use frama_c_snapshot.Prelude.{
  ℕ, ◌+◌, Bool, true, false, not, ◌&&◌, ◌||◌, Option, none, some, List, [], ◌∷◌, ◌==◌, leb, ltb,
  if◌then◌else◌, get_elem?, length,
}
use frama_c_snapshot.Prelude.Run.{Run, ok, abort, fault, ◌>>=◌, ◌>>◌, vassert, of_option}
use frama_c_snapshot.Segment.Words.{Bytes}
use frama_c_snapshot.Checked.Spaces
use frama_c_snapshot.Format.Abbrev.{
  Sizes, Abbrev, size2abbri, abbr2ptr, i_int, f_double, f_long_double, p_char, p_void,
}
use frama_c_snapshot.Format.Chars.{contains}
use frama_c_snapshot.Format.Directive.{FormatDirective, Extent, absent, star, given}
use frama_c_snapshot.Format.Fetch.{get_format_directives}
use frama_c_snapshot.Format.Validate.{
  validate_applications, infer_integral_abbr, infer_n_abbr, validate_format_type,
}

-- whether `wint_t` and `wchar_t` are signed
pub record WideTypes : Type 0 where
  pub wint_signed : Bool
  pub wchar_signed : Bool

-- the bound that a precision sets
abbrev pub limit : Extent → Option ℕ
limit absent = none
limit star = none
limit (given n) = some n

-- the buffer that a call writes to, with its size; `none` is NULL
abbrev pub Buffer : Type 0
Buffer = Option (ℕ × ℕ)

unfoldable pub validate_overlapping_buffer : Buffer → ℕ → ℕ → Run (Unit {0})
validate_overlapping_buffer none arg arg_sz = ok tt
validate_overlapping_buffer (some (buffer, buf_sz)) arg arg_sz =
    vassert (Spaces.disjoint_spaces buffer buf_sz arg arg_sz)

-- the number of bytes that `%n` writes
abbrev pub written_bytes : Sizes → FormatDirective → ℕ
written_bytes sizes dir = if dir.length_bytes == 0 then sizes.size_int else dir.length_bytes

module _ (t : Spaces.Tracking) (m : Bytes) where
  unfoldable pub validate_format_string_argument : ℕ → FormatDirective → Bool → Run ℕ
  validate_format_string_argument s dir wide =
      (if wide
        then Spaces.valid_nwstring t m s (limit dir.precision) false
        else Spaces.valid_nstring t m s (limit dir.precision) false)
      >>= λ v. elim v [ Spaces.measured size ↦ ok size | _ ↦ abort ]

  module _ (sizes : Sizes) (wides : WideTypes) (fmtdesc : List ℕ) (buffer : Buffer) where
    -- the type that a floating point directive, a character or a string expects
    unfoldable pub double_abbr : FormatDirective → Abbrev
    double_abbr dir = if dir.length_mod == 76 then f_long_double else f_double

    unfoldable pub char_abbr : FormatDirective → Run Abbrev
    char_abbr dir =
        if dir.length_mod == 108
        then size2abbri sizes sizes.size_wint wides.wint_signed
        else ok i_int

    unfoldable pub string_abbr : FormatDirective → Run Abbrev
    string_abbr dir =
        if dir.length_mod == 108
        then (size2abbri sizes sizes.size_wint wides.wchar_signed >>= abbr2ptr)
        else ok p_char

    -- the switch of `validate_format` on the specifier of a directive
    unfoldable pub validate_specifier : FormatDirective → ℕ → Run (Unit {0})
    unfolding double_abbr char_abbr string_abbr validate_format_string_argument
        validate_overlapping_buffer
    validate_specifier dir addr =
        let check = λ (expected_t : Abbrev). validate_format_type expected_t fmtdesc dir in
        if contains (100 ∷ 105 ∷ []) dir.specifier
        then (infer_integral_abbr sizes dir true >>= check)
        else if contains (111 ∷ 117 ∷ 120 ∷ 88 ∷ []) dir.specifier
        then (infer_integral_abbr sizes dir false >>= check)
        else if contains (102 ∷ 70 ∷ 101 ∷ 69 ∷ 103 ∷ 71 ∷ 97 ∷ 65 ∷ []) dir.specifier
        then check (double_abbr dir)
        else if dir.specifier == 99
        then (char_abbr dir >>= check)
        else if dir.specifier == 115
        then (string_abbr dir >>= λ expected_t.
            check expected_t
            >> (validate_format_string_argument addr dir (dir.length_mod == 108) >>= λ asz.
                validate_overlapping_buffer buffer addr asz))
        else if dir.specifier == 112
        then (check p_void
            >> (t.allocated addr 1 addr >>= λ there.
                vassert there >> validate_overlapping_buffer buffer addr 1))
        else if dir.specifier == 110
        then (infer_n_abbr sizes dir >>= λ expected_t.
            check expected_t
            >> (t.writeable addr (written_bytes sizes dir) addr >>= λ there.
                vassert there >> validate_overlapping_buffer buffer addr (written_bytes sizes dir)))
        else abort

    -- the loop of `validate_format` over the directives; an `int` index at least 2^31 is negative,
    -- and reads before the arguments
    unfoldable pub validate_directives : List FormatDirective → List ℕ → Run (Unit {0})
    unfolding validate_specifier
    validate_directives [] args = ok tt
    validate_directives (dir ∷ dirs) args =
        let rest = validate_directives dirs args in
        validate_applications dir
        >> (if ltb dir.index 0x8000_0000 && leb (length args) dir.index
            then abort
            else of_option (get_elem? args dir.index) >>= λ addr.
                validate_specifier dir addr >> rest)

    -- `validate_format`, of the format string at `fmt` with the bytes `format`; `args` has as many
    -- words as the description has characters
    unfoldable pub validate_format : ℕ → List ℕ → List ℕ → Run (Unit {0})
    unfolding validate_directives
    validate_format fmt format args = Spaces.valid_string t m fmt false >>= λ v. elim v [
      | Spaces.measured n ↦
          get_format_directives sizes format >>= λ dirs. validate_directives dirs args
      | _ ↦ abort
    ]

-- the buffer at an address
abbrev pub buffer_at : ℕ → ℕ → Buffer
buffer_at buffer size = if buffer == 0 then none else some (buffer, size)

module _ {ℓ} (t : Spaces.Tracking) (m : Bytes) (sizes : Sizes) (wides : WideTypes) {A : Type ℓ}
    (call : A) (fmtdesc : List ℕ) (fmt : ℕ) (format : List ℕ) (args : List ℕ) where
  -- the call of `validate_format` that each function makes
  unfoldable pub checked : Buffer → Run (Unit {0})
  unfolding validate_format
  checked buffer = validate_format t m sizes wides fmtdesc buffer fmt format args

  unfoldable pub builtin_printf : Run A
  unfolding checked
  builtin_printf = checked none >> ok call

  -- `fd` is what `fileno` returns, `none` for -1, and `is_open` whether `fcntl` succeeds
  unfoldable pub builtin_fprintf : ℕ → Option ℕ → Bool → Run A
  unfolding checked
  builtin_fprintf stream fd is_open = t.allocated stream 1 stream >>= λ there.
      vassert there
      >> ((elim fd [ none ↦ abort | some n ↦ ok tt ])
          >> (vassert is_open >> (checked none >> ok call)))

  unfoldable pub builtin_dprintf : Bool → Run A
  unfolding checked
  builtin_dprintf is_open = vassert is_open >> (checked none >> ok call)

  -- `len` is what `vsnprintf` counts
  unfoldable pub builtin_sprintf : ℕ → ℕ → Run A
  unfolding checked
  builtin_sprintf buffer len = t.writeable buffer (len + 1) buffer >>= λ there.
      vassert there >> (checked (buffer_at buffer (len + 1)) >> ok call)

  unfoldable pub builtin_snprintf : ℕ → ℕ → Run A
  unfolding checked
  builtin_snprintf buffer size =
      checked (buffer_at buffer size)
      >> (if size == 0
          then ok call
          else t.writeable buffer size buffer >>= λ there. vassert there >> ok call)

  unfoldable pub builtin_syslog : Run A
  unfolding checked
  builtin_syslog = checked none >> ok call
