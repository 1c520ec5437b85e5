-- ===== src/Libc/Tests.antt =====
-- Runs of the string functions, and their theorems at concrete strings.
use frama_c_snapshot.Prelude.{ℕ, ◌≡◌, refl, some, none, List, [], ◌∷◌, arith, ◌^◌}
use frama_c_snapshot.Prelude.Run.{ok, fault}
use frama_c_snapshot.Libc.Bytes.{memmove}
use frama_c_snapshot.Libc.Inttypes.{neg_max, imaxabs, imaxdiv}
use frama_c_snapshot.Libc.Alloc.{calloc}
use frama_c_snapshot.Libc.Number.{abs, neg_int, atoi}
use frama_c_snapshot.Libc.Wide.{wmemset, wcscat, wcsncpy}
use frama_c_snapshot.Libc.Bytes.Move.{Moved, memmove-Moved}
use frama_c_snapshot.Libc.Scan.{strcasecmp, strrchr, strstr}
use frama_c_snapshot.Libc.Scan.Length.{IsString, ended, more}
use frama_c_snapshot.Libc.Write.{strncpy}

-- "ab" and "ac", each in an object of four bytes
abbrev ab : List ℕ
ab = 97 ∷ 98 ∷ 0 ∷ 7 ∷ []

abbrev ac : List ℕ
ac = 97 ∷ 99 ∷ 0 ∷ 7 ∷ []

abbrev room : List ℕ
room = 97 ∷ 0 ∷ 7 ∷ 7 ∷ []

ab-IsString : IsString ab (97 ∷ 98 ∷ [])
ab-IsString = more refl (omega arith) (more refl (omega arith) ended)

ac-IsString : IsString ac (97 ∷ 99 ∷ [])
ac-IsString = more refl (omega arith) (more refl (omega arith) ended)

room-IsString : IsString room (97 ∷ [])
room-IsString = more refl (omega arith) ended

runs :
    (strcasecmp ab ac ≡ ok 1)
    × (strrchr ab 98 ≡ ok (some 1))
    × (strstr ab (98 ∷ 0 ∷ []) ≡ ok (some 1))
    × (strncpy room ac 4 ≡ ok (97 ∷ 99 ∷ 0 ∷ 0 ∷ []))
unfolding strcasecmp strrchr strstr strncpy
runs = (refl, refl, refl, refl)

memmove-Moved_example :
    (moved : List ℕ) × (memmove 1 0 2 (5 ∷ 6 ∷ 7 ∷ []) ≡ ok moved)
    × Moved 2 0 1 0 (5 ∷ 6 ∷ 7 ∷ []) moved
memmove-Moved_example = memmove-Moved 1 0 2 (5 ∷ 6 ∷ 7 ∷ []) (omega arith) (omega arith)

number_runs :
    (abs (neg_int 5) ≡ ok 5)
    × (abs (neg_int (2 ^ 31)) ≡ fault)
    × (atoi (32 ∷ 45 ∷ 52 ∷ 50 ∷ 97 ∷ []) ≡ ok (neg_int 42))
    × (atoi ab ≡ ok 0)
unfolding abs atoi
number_runs = (refl, refl, refl, refl)

imax_runs :
    (imaxabs (neg_max 5) ≡ ok 5)
    × (imaxabs (2 ^ 63) ≡ fault)
    × (imaxdiv (neg_max 7) 2 ≡ ok (record { quot = neg_max 3; rem = neg_max 1 }))
    × (imaxdiv 7 (neg_max 2) ≡ ok (record { quot = neg_max 3; rem = 1 }))
    × (imaxdiv (2 ^ 63) (neg_max 1) ≡ fault)
unfolding imaxabs imaxdiv
imax_runs = (refl, refl, refl, refl, refl)

calloc_runs :
    (calloc 64 (λ _. some room) 2 2 ≡ ok (some (0 ∷ 0 ∷ 0 ∷ 0 ∷ [])))
    × (calloc 64 (λ _. some room) (2 ^ 62) 4 ≡ ok none)
unfolding calloc
calloc_runs = (refl, refl)

wide_runs :
    (wmemset room 5 2 ≡ ok (5 ∷ 5 ∷ 7 ∷ 7 ∷ []))
    × (wcscat room (300 ∷ 0 ∷ []) ≡ ok (97 ∷ 300 ∷ 0 ∷ 7 ∷ []))
    × (wcsncpy room (300 ∷ 0 ∷ []) 3 ≡ ok (300 ∷ 0 ∷ 0 ∷ 7 ∷ []))
unfolding wmemset wcscat wcsncpy
wide_runs = (refl, refl, refl)

abbrev ab_chars : List ℕ
ab_chars = 97 ∷ 98 ∷ []

abbrev ac_chars : List ℕ
ac_chars = 97 ∷ 99 ∷ []
