-- ===== src/Format/Fetch/Count.antt =====
-- The array of directives is large enough: a format yields no more directives than it has '%'.
use frama_c_snapshot.Prelude.{ℕ, ◌≤◌, List, ◌==◌, if◌then◌else◌, length}
use frama_c_snapshot.Prelude.Run.{Run, ok, abort, fault}
use frama_c_snapshot.Format.Directive.{FormatDirective}
use frama_c_snapshot.Format.Fetch.Shrinks.{weigh, Shrinks}

abbrev pub is_percent : ℕ → ℕ
is_percent c = if c == 37 then 1 else 0

-- the number of '%' in a list
abbrev pub percents : List ℕ → ℕ
percents s = weigh is_percent s

-- A call that returns has made at most `n` directives.
abbrev pub Within : Run (List FormatDirective) → ℕ → Type 0
Within (ok dirs) n = length dirs ≤ n
Within abort n = Unit
Within fault n = Unit
