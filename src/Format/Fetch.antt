-- ===== src/Format/Fetch.antt =====
-- `get_format_directives` of e_acsl_format.h, and `charcount` of e_acsl_string.h.
pub mod Shrinks
pub mod Count
pub mod Fuel
use frama_c_snapshot.Prelude.{
  ℕ, zero, suc, ◌+◌, ◌-◌, Bool, true, false, Option, none, some, List, [], ◌∷◌, ◌++◌, ◌==◌, leb,
  ltb, if◌then◌else◌, min, take, replicate, length,
}
use frama_c_snapshot.Prelude.Run.{Run, ok, abort, fault, ◌>>=◌}
use frama_c_snapshot.Libc.Bytes.{write}
use frama_c_snapshot.Format.Abbrev.{Sizes}
use frama_c_snapshot.Format.Directive.{
  FormatDirective, blank, Fetched, fetch_format_argno, fetch_format_flags, fetch_format_field_width,
  fetch_format_precision, fetch_format_length,
}

-- `charcount`, for a character other than 0: the loop over `strchr`
unfoldable pub charcount : List ℕ → ℕ → Run ℕ
charcount [] c = fault
charcount (d ∷ s) c =
    let rest = charcount s c in
    elim (d == c) [
      | true ↦ rest >>= λ n. ok (suc n)
      | false ↦ elim (d == 0) [ true ↦ ok 0 | false ↦ rest ]
    ]

-- The copy of the directive's text, from its '%' at `fmt_start`, into an array of 16 bytes; the
-- terminator is written at `len + 1`.
unfoldable pub save_text : List ℕ → ℕ → FormatDirective → Run FormatDirective
save_text fmt_start fmt_len dir =
    let len = if ltb fmt_len 15 then fmt_len else 15 in
    write (take len fmt_start ++ replicate (16 - len) 0) (len + 1) 0 >>= λ text.
    ok (record dir { directive = text })

module _ (sizes : Sizes) where
  -- one directive, from behind its '%'
  unfoldable pub fetch_directive : List ℕ → Option FormatDirective → ℕ → Fetched
  unfolding fetch_format_argno fetch_format_flags fetch_format_field_width fetch_format_precision
      fetch_format_length save_text
  fetch_directive fmt prev i = fetch_format_argno fmt blank prev i >>= λ a.
      fetch_format_flags a.1 a.0 >>= λ b. fetch_format_field_width b.1 b.0 >>= λ c.
      fetch_format_precision c.1 c.0 >>= λ d. fetch_format_length sizes d.1 d.0 >>= λ e.
      save_text (37 ∷ fmt) (suc (length fmt) - length e.1) e.0 >>= λ dir. ok (dir, e.1)

  -- The loop with fuel, with the number of the next directive; `out` stands for a run out of fuel.
  unfoldable pub fetch_loop :
      Run (List FormatDirective)
      → ℕ
      → List ℕ
      → Option FormatDirective
      → ℕ
      → Run (List FormatDirective)
  unfolding fetch_directive
  fetch_loop out zero fmt prev i = out
  fetch_loop out (suc fuel) [] prev i = fault
  fetch_loop out (suc fuel) (c ∷ fmt) prev i =
      if c == 0
      then ok []
      else if c == 37
      then (elim fmt [
        | [] ↦ fault
        | d ∷ fmt' ↦ elim (d == 37) [
          | true ↦ fetch_loop out fuel fmt' prev i
          | false ↦ fetch_directive (d ∷ fmt') prev i >>= λ found.
              fetch_loop out fuel found.1 (some found.0) (i + 1) >>= λ dirs. ok (found.0 ∷ dirs)
        ]
      ])
      else fetch_loop out fuel fmt prev i

  -- `get_format_directives`: each round takes a character.
  unfoldable pub get_format_directives : List ℕ → Run (List FormatDirective)
  unfolding fetch_loop
  get_format_directives fmt = fetch_loop fault (suc (length fmt)) fmt none 0
