-- ===== src/Format/Directive.antt =====
-- A formatting directive of e_acsl_format.h, and the functions that fetch its parts from the format
-- string. A pointer into the string is the list of the bytes from it to the end of the object; a
-- read at its end, and a number that an `int` cannot hold, are faults.
use frama_c_snapshot.Prelude.{
  ℕ, ◌+◌, ◌-◌, ◌*◌, ◌%◌, Bool, true, false, not, ◌&&◌, ◌||◌, Option, none, some, List, [], ◌∷◌,
  ◌==◌, ltb, leb, if◌then◌else◌,
}
use frama_c_snapshot.Prelude.Bits.{pow2}
use frama_c_snapshot.Prelude.Run.{Run, ok, abort, fault, ◌>>=◌}
use frama_c_snapshot.Format.Chars.{is_class, specifier_id, flag_id, period_id}
use frama_c_snapshot.Format.Abbrev.{Sizes}

-- `struct flags`
pub record Flags : Type 0 where
  pub specified : Bool
  pub minus : Bool
  pub plus : Bool
  pub space : Bool
  pub hash : Bool
  pub zero_pad : Bool
  pub apostroph : Bool

-- a field width or a precision: INT_MIN, -1, or a number
pub data Extent : Type 0 where
  absent star : Extent
  given : ℕ → Extent

-- `format_directive`; `index` is the word of an `int`, and 0 is no modifier
pub record FormatDirective : Type 0 where
  pub directive : List ℕ
  pub index : ℕ
  pub expl : Bool
  pub flags : Flags
  pub field_width : Extent
  pub precision : Extent
  pub length_bytes : ℕ
  pub length_mod : ℕ
  pub extended : Bool
  pub specifier : ℕ

-- the result of `private_calloc` (its widths are set before they are read)
abbrev pub blank : FormatDirective
blank = record {
  directive = [];
  index = 0;
  expl = false;
  flags = record {
    specified = false;
    minus = false;
    plus = false;
    space = false;
    hash = false;
    zero_pad = false;
    apostroph = false;
  };
  field_width = given 0;
  precision = given 0;
  length_bytes = 0;
  length_mod = 0;
  extended = false;
  specifier = 0;
}

-- what a function that fetches returns: the directive, and the rest of the format
abbrev pub Fetched : Type 0
Fetched = Run (FormatDirective × List ℕ)

abbrev pub is_digit : ℕ → Bool
is_digit c = leb 48 c && leb c 57

-- `while (isdigit(*fmt)) { n = n * 10 + (*fmt - '0'); fmt++; }`
unfoldable pub fetch_digits : ℕ → List ℕ → Run (ℕ × List ℕ)
fetch_digits n [] = fault
fetch_digits n (c ∷ fmt) =
    let next = n * 10 + (c - 48) in
    elim (is_digit c) [
      | false ↦ ok (n, c ∷ fmt)
      | true ↦ elim (ltb next (pow2 31)) [ true ↦ fetch_digits next fmt | false ↦ fault ]
    ]

-- the test that numbered and non-numbered directives are not mixed
abbrev pub same_numbering : Option FormatDirective → FormatDirective → Bool
same_numbering none dir = true
same_numbering (some prev) dir = if prev.expl then dir.expl else not dir.expl

-- the end of `fetch_format_argno`, at the digits' end `ret`
unfoldable pub set_argno :
    ℕ → List ℕ → List ℕ → FormatDirective → Option FormatDirective → ℕ → Fetched
set_argno argno [] fmt dir prev ind = fault
set_argno argno (c ∷ ret) fmt dir prev ind =
    let numbered = c == 36 in
    let dir' = record dir {
      index = if numbered then (argno + pow2 32 - 1) % pow2 32 else ind;
      expl = numbered;
    } in
    if same_numbering prev dir' then ok (dir', if numbered then ret else fmt) else abort

unfoldable pub fetch_format_argno : List ℕ → FormatDirective → Option FormatDirective → ℕ → Fetched
unfolding fetch_digits set_argno
fetch_format_argno [] dir prev ind = fault
fetch_format_argno (c ∷ fmt) dir prev ind =
    if c == 48
    then ok (dir, c ∷ fmt)
    else fetch_digits 0 (c ∷ fmt) >>= λ found. set_argno found.0 found.1 (c ∷ fmt) dir prev ind

-- `set_format_flag`, for the flag of a character; it aborts if the flag is set
unfoldable pub set_format_flag : ℕ → Flags → Run Flags
set_format_flag c flags =
    let marked = record flags { specified = true } in
    if c == 35
    then (if flags.hash then abort else ok (record marked { hash = true }))
    else if c == 45
    then (if flags.minus then abort else ok (record marked { minus = true }))
    else if c == 43
    then (if flags.plus then abort else ok (record marked { plus = true }))
    else if c == 32
    then (if flags.space then abort else ok (record marked { space = true }))
    else if c == 39
    then (if flags.apostroph then abort else ok (record marked { apostroph = true }))
    else if c == 48
    then (if flags.zero_pad then abort else ok (record marked { zero_pad = true }))
    else ok marked

unfoldable pub fetch_format_flags : List ℕ → FormatDirective → Fetched
unfolding is_class set_format_flag
fetch_format_flags [] dir = fault
fetch_format_flags (c ∷ fmt) dir = is_class flag_id c >>= λ flag.
    if flag
    then (set_format_flag c dir.flags >>= λ flags.
        fetch_format_flags fmt (record dir { flags = flags }))
    else ok (dir, c ∷ fmt)

unfoldable pub fetch_format_field_width : List ℕ → FormatDirective → Fetched
unfolding fetch_digits
fetch_format_field_width [] dir = fault
fetch_format_field_width (c ∷ fmt) dir =
    if c == 42
    then ok (record dir { field_width = star }, fmt)
    else if is_digit c
    then (if c == 48
        then abort
        else (fetch_digits 0 (c ∷ fmt) >>= λ found.
            ok (record dir { field_width = given found.0 }, found.1)))
    else ok (record dir { field_width = absent }, c ∷ fmt)

-- `fetch_format_precision` behind the period
unfoldable pub fetch_precision_number : List ℕ → FormatDirective → Fetched
unfolding fetch_digits
fetch_precision_number [] dir = fault
fetch_precision_number (c ∷ fmt) dir =
    if c == 42
    then ok (record dir { precision = star }, fmt)
    else (fetch_digits 0 (c ∷ fmt) >>= λ found.
        ok (record dir { precision = given found.0 }, found.1))

unfoldable pub fetch_format_precision : List ℕ → FormatDirective → Fetched
unfolding is_class fetch_precision_number
fetch_format_precision [] dir = fault
fetch_format_precision (c ∷ fmt) dir = is_class period_id c >>= λ period.
    if period
    then fetch_precision_number fmt dir
    else ok (record dir { precision = absent }, c ∷ fmt)

-- the end of `fetch_format_length`, which takes the specifier
unfoldable pub fetch_specifier : List ℕ → FormatDirective → Fetched
unfolding is_class
fetch_specifier [] dir = fault
fetch_specifier (c ∷ fmt) dir =
    if c == 0
    then ok (record dir { specifier = c }, fmt)
    else (is_class specifier_id c >>= λ known.
        if known then ok (record dir { specifier = c }, fmt) else abort)

-- whether a modifier is repeated, and the format behind the second letter
abbrev pub doubled : ℕ → List ℕ → Bool
doubled c [] = false
doubled c (d ∷ fmt) = (c == 104 && d == 104) || c == 108 && d == 108

abbrev pub after_modifier : List ℕ → List ℕ
after_modifier [] = []
after_modifier (d ∷ fmt) = fmt

module _ (sizes : Sizes) where
  -- the bytes that a length modifier of one letter stands for, 0 for any other character
  abbrev pub modifier_bytes : ℕ → ℕ
  modifier_bytes c =
      if c == 104
      then sizes.size_short
      else if c == 108
      then sizes.size_long
      else if c == 106
      then sizes.size_intmax
      else if c == 122
      then sizes.size_size
      else if c == 116
      then sizes.size_ptrdiff
      else if c == 76
      then sizes.size_long_double
      else 0

  -- the bytes of a doubled modifier, `hh` or `ll`
  abbrev pub doubled_bytes : ℕ → ℕ
  doubled_bytes c = if c == 104 then 1 else sizes.size_long_long

  unfoldable pub fetch_format_length : List ℕ → FormatDirective → Fetched
  unfolding fetch_specifier
  fetch_format_length [] dir = fault
  fetch_format_length (c ∷ fmt) dir =
      let plain = record dir { length_bytes = 0; length_mod = 0; extended = false } in
      if doubled c fmt
      then fetch_specifier (after_modifier fmt)
          (record plain { length_bytes = doubled_bytes c; length_mod = c; extended = true })
      else if modifier_bytes c == 0
      then fetch_specifier (c ∷ fmt) plain
      else fetch_specifier fmt (record plain { length_bytes = modifier_bytes c; length_mod = c })
