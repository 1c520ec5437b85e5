-- ===== src/Libc/Wide.antt =====
-- share/libc/wchar.c: the functions on blocks and strings of wide characters, in two objects. The
-- loops are those of string.c, on elements in place of bytes.
use frama_c_snapshot.Prelude.{ℕ, zero, suc, ◌+◌, List}
use frama_c_snapshot.Prelude.Run.{Run, ok, ◌>>=◌}
use frama_c_snapshot.Libc.Bytes.{write, copy_bytes}
use frama_c_snapshot.Libc.Scan.{strlen}
use frama_c_snapshot.Libc.Write.{put_string, put_prefix, put_padded}

unfoldable pub wmemcpy : List ℕ → List ℕ → ℕ → Run (List ℕ)
unfolding copy_bytes
wmemcpy dest src n = copy_bytes n 0 dest src

-- the loop of `wmemset` from the offset `i`
unfoldable pub fill_wide : ℕ → ℕ → List ℕ → ℕ → Run (List ℕ)
fill_wide zero i dest val = ok dest
fill_wide (suc n) i dest val = write dest i val >>= λ dest'. fill_wide n (i + 1) dest' val

unfoldable pub wmemset : List ℕ → ℕ → ℕ → Run (List ℕ)
unfolding fill_wide
wmemset dest val len = fill_wide len 0 dest val

unfoldable pub wcscpy : List ℕ → List ℕ → Run (List ℕ)
unfolding put_string
wcscpy dest src = put_string 0 dest src

unfoldable pub wcslen : List ℕ → Run ℕ
unfolding strlen
wcslen str = strlen str

-- The second loop writes the terminator that ended the first one again.
unfoldable pub wcsncpy : List ℕ → List ℕ → ℕ → Run (List ℕ)
unfolding put_padded
wcsncpy dest src n = put_padded 0 n dest src

unfoldable pub wcscat : List ℕ → List ℕ → Run (List ℕ)
unfolding wcslen put_string
wcscat dest src = wcslen dest >>= λ n. put_string n dest src

unfoldable pub wcsncat : List ℕ → List ℕ → ℕ → Run (List ℕ)
unfolding wcslen put_prefix
wcsncat dest src n = wcslen dest >>= λ dest_len. put_prefix dest_len n dest src
