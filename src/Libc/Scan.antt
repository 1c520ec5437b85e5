-- ===== src/Libc/Scan.antt =====
-- The functions of share/libc/string.c that read strings: `strlen`, `strnlen`, `strcmp`, `strncmp`,
-- `strcasecmp`, `strchr`, `strrchr` and `strstr`. A pointer that is read is the list of the bytes
-- from it to the end of its object.
pub mod Length
pub mod Compare
use frama_c_snapshot.Prelude.{
  ℕ, zero, suc, ◌+◌, ◌-◌, ◌%◌, Bool, true, false, ◌&&◌, Option, none, some, List, [], ◌∷◌, ◌==◌,
  leb, if◌then◌else◌,
}
use frama_c_snapshot.Prelude.Bits.{pow2}
use frama_c_snapshot.Prelude.Run.{Run, ok, abort, fault, ◌>>=◌}
use frama_c_snapshot.Libc.Bytes.{byte_diff, scan_down}

unfoldable pub strlen : List ℕ → Run ℕ
strlen [] = fault
strlen (c ∷ s) =
    let rest = strlen s in elim (c == 0) [ true ↦ ok 0 | false ↦ rest >>= λ n. ok (suc n) ]

unfoldable pub strnlen : List ℕ → ℕ → Run ℕ
strnlen s zero = ok 0
strnlen [] (suc maxlen) = fault
strnlen (c ∷ s) (suc maxlen) =
    let rest = strnlen s maxlen in elim (c == 0) [ true ↦ ok 0 | false ↦ rest >>= λ n. ok (suc n) ]

unfoldable pub strcmp : List ℕ → List ℕ → Run ℕ
strcmp [] s2 = fault
strcmp (a ∷ s1) [] = fault
strcmp (a ∷ s1) (b ∷ s2) = elim (a == b) [
  | false ↦ ok (byte_diff a b)
  | true ↦ elim (a == 0) [ true ↦ ok 0 | false ↦ strcmp s1 s2 ]
]

unfoldable pub strncmp : List ℕ → List ℕ → ℕ → Run ℕ
strncmp s1 s2 zero = ok 0
strncmp [] s2 (suc n) = fault
strncmp (a ∷ s1) [] (suc n) = fault
strncmp (a ∷ s1) (b ∷ s2) (suc n) = elim (a == b) [
  | false ↦ ok (byte_diff a b)
  | true ↦ elim (a == 0) [ true ↦ ok 0 | false ↦ strncmp s1 s2 n ]
]

-- `c -= ('A' - 'a')` for the letters of upper case
abbrev pub lowered : ℕ → ℕ
lowered c = if leb 65 c && leb c 90 then c + 32 else c

unfoldable pub char_equal_ignore_case : ℕ → ℕ → ℕ
char_equal_ignore_case c1 c2 =
    if lowered c1 == lowered c2 then 0 else byte_diff (lowered c2) (lowered c1)

unfoldable pub strcasecmp : List ℕ → List ℕ → Run ℕ
unfolding char_equal_ignore_case
strcasecmp [] s2 = fault
strcasecmp (a ∷ s1) [] = fault
strcasecmp (a ∷ s1) (b ∷ s2) = elim (a == 0) [
  | true ↦ if b == 0 then ok 0 else ok (pow2 32 - 1)
  | false ↦ elim (b == 0) [
    | true ↦ ok 1
    | false ↦ elim (char_equal_ignore_case a b == 0) [
      | true ↦ strcasecmp s1 s2
      | false ↦ ok (char_equal_ignore_case a b)
    ]
  ]
]

-- the loop of `strchr` from the offset `i`; the result is an offset, `none` for NULL
unfoldable pub strchr_from : ℕ → List ℕ → ℕ → Run (Option ℕ)
strchr_from i [] ch = fault
strchr_from i (c ∷ s) ch = elim (c == ch) [
  | true ↦ ok (some i)
  | false ↦ elim (c == 0) [ true ↦ ok none | false ↦ strchr_from (i + 1) s ch ]
]

unfoldable pub strchr : List ℕ → ℕ → Run (Option ℕ)
unfolding strchr_from
strchr s c = strchr_from 0 s (c % 256)

unfoldable pub strrchr : List ℕ → ℕ → Run (Option ℕ)
unfolding strlen scan_down
strrchr s c = strlen s >>= λ n. scan_down (n + 1) (c % 256) s

-- The inner loop of `strstr`: whether the needle has ended where the loop stops.
unfoldable pub starts_with : List ℕ → List ℕ → Run Bool
starts_with [] needle = fault
starts_with (h ∷ haystack) [] = fault
starts_with (h ∷ haystack) (c ∷ needle) = elim (h == 0) [
  | true ↦ ok (c == 0)
  | false ↦ elim (h == c) [ true ↦ starts_with haystack needle | false ↦ ok (c == 0) ]
]

-- the outer loop of `strstr`, from the offset `i`
unfoldable pub strstr_from : ℕ → List ℕ → List ℕ → Run (Option ℕ)
unfolding starts_with
strstr_from i [] needle = fault
strstr_from i (h ∷ haystack) needle = elim (h == 0) [
  | true ↦ ok none
  | false ↦ starts_with (h ∷ haystack) needle >>= λ found. elim found [
    | true ↦ ok (some i)
    | false ↦ strstr_from (i + 1) haystack needle
  ]
]

unfoldable pub strstr : List ℕ → List ℕ → Run (Option ℕ)
unfolding strstr_from
strstr haystack [] = fault
strstr haystack (c ∷ needle) = elim (c == 0) [
  | true ↦ ok (some 0)
  | false ↦ strstr_from 0 haystack (c ∷ needle)
]
