-- ===== src/Format/Tests.antt =====
-- Runs of the format checks, and their theorems at concrete formats.
use frama_c_snapshot.Prelude.{
  ℕ, ◌≡◌, none, some, get_elem?, leb, ◌&&◌, ◌+◌, ◌-◌, true, refl, false, List, [], ◌∷◌, arith,
  length,
}
use frama_c_snapshot.Prelude.Run.{ok, abort, ◌>>=◌}
use frama_c_snapshot.Format.Abbrev.{Sizes}
use frama_c_snapshot.Format.Directive.{FormatDirective, blank, absent}
use frama_c_snapshot.Format.Fetch.{fetch_loop, get_format_directives}
use frama_c_snapshot.Format.Fetch.Fuel.{get_format_directives-fetch_loop}
use frama_c_snapshot.Format.Validate.{validate_applications, infer_n_abbr, validate_format_type}
use frama_c_snapshot.Checked.Spaces
use frama_c_snapshot.Format.Abbrev.{letter, p_int}
use frama_c_snapshot.Format.Printf.{validate_overlapping_buffer, WideTypes, validate_directives}
use frama_c_snapshot.Format.Printf.Writes.{Writes, validate_directives-Writes}

abbrev lp64 : Sizes
lp64 = record {
  size_short = 2;
  size_int = 4;
  size_long = 8;
  size_long_long = 8;
  size_float = 4;
  size_double = 8;
  size_long_double = 16;
  size_pointer = 8;
  size_intmax = 8;
  size_size = 8;
  size_ptrdiff = 8;
  size_wint = 4;
}

-- "%-5ld%%%s"
abbrev format : List ℕ
format = 37 ∷ 45 ∷ 53 ∷ 108 ∷ 100 ∷ 37 ∷ 37 ∷ 37 ∷ 115 ∷ 0 ∷ []

abbrev format_chars : List ℕ
format_chars = 37 ∷ 45 ∷ 53 ∷ 108 ∷ 100 ∷ 37 ∷ 37 ∷ 37 ∷ 115 ∷ []

number_made : (get_format_directives lp64 format >>= λ dirs. ok (length dirs)) ≡ ok 2
unfolding get_format_directives
number_made = refl

-- "%d%2$d"
mixed_numbering : get_format_directives lp64 (37 ∷ 100 ∷ 37 ∷ 50 ∷ 36 ∷ 100 ∷ 0 ∷ []) ≡ abort
unfolding get_format_directives
mixed_numbering = refl

get_format_directives-fetch_loop_example :
    fetch_loop lp64 (ok []) 20 format none 0 ≡ get_format_directives lp64 format
get_format_directives-fetch_loop_example =
    get_format_directives-fetch_loop lp64 (ok []) format 20 (omega arith)

-- a memory model with one block of 16 bytes at 0x100
abbrev one_block : Spaces.Tracking
one_block = record {
  allocated = λ addr size base_ptr. ok (leb 0x100 addr && leb (addr + size) 0x110);
  readonly = λ addr. ok false;
  writeable = λ addr size base_ptr. ok (leb 0x100 addr && leb (addr + size) 0x110);
  block_length = λ addr. ok 16;
  offset = λ addr. ok (addr - 0x100);
}

abbrev wides : WideTypes
wides = record { wint_signed = false; wchar_signed = true }

-- "%n"
abbrev count_directive : FormatDirective
count_directive = record blank { specifier = 110; field_width = absent; precision = absent }

count_passes :
    validate_directives one_block
      (λ x. 0)
      lp64
      wides
      (letter p_int ∷ [])
      (some (0x10a, 6))
      (count_directive ∷ [])
      (0x104 ∷ [])
    ≡ ok tt
unfolding validate_directives validate_overlapping_buffer Spaces.disjoint_spaces
    validate_applications infer_n_abbr validate_format_type
count_passes = refl

-- an `int` that ends behind the block
count_fails :
    validate_directives one_block
      (λ x. 0)
      lp64
      wides
      (letter p_int ∷ [])
      none
      (count_directive ∷ [])
      (0x10d ∷ [])
    ≡ abort
unfolding validate_directives validate_applications infer_n_abbr validate_format_type
count_fails = refl

validate_directives-Writes_example :
    (addr : ℕ) × (n : ℕ) × (get_elem? (0x104 ∷ []) 0 ≡ some addr)
    × Writes one_block
        (λ x. 0)
        lp64
        wides
        (letter p_int ∷ [])
        (some (0x10a, 6))
        count_directive
        addr
        n
validate_directives-Writes_example =
    validate_directives-Writes one_block (λ x. 0) lp64 wides (letter p_int ∷ []) (some (0x10a, 6))
      (count_directive ∷ []) (0x104 ∷ []) 0 count_directive count_passes refl refl (omega arith)
