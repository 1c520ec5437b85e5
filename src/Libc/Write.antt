-- ===== src/Libc/Write.antt =====
-- The functions of share/libc/string.c that make strings: `strcpy`, `strncpy`, `strcat`, `strncat`,
-- `strdup` and `strndup`, on a source and a destination in two objects. (`strerror` and `strsignal`
-- return an unknown string.)
use frama_c_snapshot.Prelude.{
  ℕ, zero, suc, ◌+◌, Bool, true, false, Option, none, some, List, [], ◌∷◌, ◌==◌,
}
use frama_c_snapshot.Prelude.Run.{Run, ok, abort, fault, ◌>>=◌}
use frama_c_snapshot.Libc.Bytes.{write, memcpy}
use frama_c_snapshot.Libc.Scan.{strlen, strnlen}
pub mod Copy

-- the loop of `strcpy` and `strcat`, which writes from the offset `i`, and the terminator
unfoldable pub put_string : ℕ → List ℕ → List ℕ → Run (List ℕ)
put_string i dest [] = fault
put_string i dest (c ∷ src) = elim (c == 0) [
  | true ↦ write dest i 0
  | false ↦ write dest i c >>= λ dest'. put_string (i + 1) dest' src
]

unfoldable pub strcpy : List ℕ → List ℕ → Run (List ℕ)
unfolding put_string
strcpy dest src = put_string 0 dest src

unfoldable pub strcat : List ℕ → List ℕ → Run (List ℕ)
unfolding strlen put_string
strcat dest src = strlen dest >>= λ n. put_string n dest src

-- the loop of `strncat` with `n` characters left, and the terminator
unfoldable pub put_prefix : ℕ → ℕ → List ℕ → List ℕ → Run (List ℕ)
put_prefix i zero dest src = write dest i 0
put_prefix i (suc n) dest [] = fault
put_prefix i (suc n) dest (c ∷ src) = elim (c == 0) [
  | true ↦ write dest i 0
  | false ↦ write dest i c >>= λ dest'. put_prefix (i + 1) n dest' src
]

unfoldable pub strncat : List ℕ → List ℕ → ℕ → Run (List ℕ)
unfolding strlen put_prefix
strncat dest src n = strlen dest >>= λ dest_len. put_prefix dest_len n dest src

-- the second loop of `strncpy`
unfoldable pub pad : ℕ → ℕ → List ℕ → Run (List ℕ)
pad i zero dest = ok dest
pad i (suc n) dest = write dest i 0 >>= λ dest'. pad (i + 1) n dest'

-- The first loop of `strncpy` with `n` places left, and the second one. After the break at the
-- terminator, the second loop writes it once more.
unfoldable pub put_padded : ℕ → ℕ → List ℕ → List ℕ → Run (List ℕ)
unfolding pad
put_padded i zero dest src = ok dest
put_padded i (suc n) dest [] = fault
put_padded i (suc n) dest (c ∷ src) = write dest i c >>= λ dest'. elim (c == 0) [
  | true ↦ pad i (suc n) dest'
  | false ↦ put_padded (i + 1) n dest' src
]

unfoldable pub strncpy : List ℕ → List ℕ → ℕ → Run (List ℕ)
unfolding put_padded
strncpy dest src n = put_padded 0 n dest src

-- What `malloc` returns is an argument: for a size, an object of so many bytes, or NULL. The
-- results are the copy and whether `errno` is set to `ENOMEM`.
module _ (malloc : ℕ → Option (List ℕ)) where
  unfoldable pub strdup : List ℕ → Run (Option (List ℕ) × Bool)
  unfolding strlen memcpy
  strdup s = strlen s >>= λ n. elim (malloc (n + 1)) [
    | none ↦ ok (none, true)
    | some p ↦ memcpy p s (n + 1) >>= λ p'. ok (some p', false)
  ]

  unfoldable pub strndup : List ℕ → ℕ → Run (Option (List ℕ) × Bool)
  unfolding strnlen memcpy
  strndup s n = strnlen s n >>= λ l. elim (malloc (l + 1)) [
    | none ↦ ok (none, true)
    | some p ↦ memcpy p s l >>= λ p'. write p' l 0 >>= λ p''. ok (some p'', false)
  ]
