-- ===== src/Libc/Contract/Tests.antt =====
-- The theorems on contracts and on unknown values at concrete inputs.
use frama_c_snapshot.Prelude.{ℕ, ◌*◌, ◌≡◌, ◌↔◌, refl, true, false, List, [], ◌∷◌, arith}
use frama_c_snapshot.Prelude.Run.{ok, abort}
use frama_c_snapshot.Libc.Ctype.{
  isalnum, isalpha, isblank, isdigit, islower, isspace, isupper, isxdigit, tolower, toupper,
}
use frama_c_snapshot.Libc.Scan.Length.{IsString, ended, more}
use frama_c_snapshot.Libc.Contract.Chars.{
  within, Classifies, Lowers, Raises, isalnum_behaviors, isalpha_behaviors, isblank_behaviors,
  isdigit_behaviors, islower_behaviors, isspace_behaviors, isupper_behaviors, isxdigit_behaviors,
  ctype-Classifies, isblank-Classifies,
}
use frama_c_snapshot.Libc.Entropy.{Entropy, frama_c_interval}
use frama_c_snapshot.Libc.Entropy.Bounds.{CanReturn, IsBounded, frama_c_interval-IsBounded}
use frama_c_snapshot.Libc.Bytes.{memcmp, memchr, memcpy, memset}
use frama_c_snapshot.Libc.Scan.{strchr, strrchr}
use frama_c_snapshot.Libc.Contract.Strings.{
  MemcmpContract, MemchrContract, MemcpyContract, MemsetContract, StrchrContract, StrrchrContract,
}
use frama_c_snapshot.Libc.Contract.Strings.Blocks.{blocks-Contract}
use frama_c_snapshot.Libc.Contract.Strings.Finds.{finds-Contract}
use frama_c_snapshot.Libc.Env.{getenv, putenv, setenv, unsetenv, minus_one}
use frama_c_snapshot.Libc.Env.Entries.{Keeps}
use frama_c_snapshot.Libc.Env.Safe.{env-IsValid, initial, initial-IsValid, IsStatus, refused}

-- the letter A
ctype-Classifies_example :
    Classifies isalnum_behaviors isalnum 65
    × Classifies isalpha_behaviors isalpha 65
    × Classifies isdigit_behaviors isdigit 65
    × Classifies islower_behaviors islower 65
    × Classifies isspace_behaviors isspace 65
    × Classifies isupper_behaviors isupper 65
    × Classifies isxdigit_behaviors isxdigit 65
    × Lowers tolower 65
    × Raises toupper 65
ctype-Classifies_example = ctype-Classifies 65 refl

-- the line feed
isblank-Classifies_example :
    (within 10 13 10 ≡ false → Classifies isblank_behaviors isblank 10)
    × (Classifies isblank_behaviors isblank 10 → within 10 13 10 ≡ false)
isblank-Classifies_example = isblank-Classifies 10

frama_c_interval-IsBounded_example : CanReturn (frama_c_interval 2 5) 4 ↔ IsBounded 31 2 5 4
frama_c_interval-IsBounded_example = frama_c_interval-IsBounded 2 5 4 (omega arith) refl

abbrev some_entropy : Entropy
some_entropy = λ n. n * 7

-- "A="
abbrev pair : List ℕ
pair = 65 ∷ 61 ∷ 0 ∷ []

pair-IsString : IsString pair (65 ∷ 61 ∷ [])
pair-IsString = more refl (omega arith) (more refl (omega arith) ended)

env-IsValid_example :
    (getenv pair initial some_entropy ≡ abort)
    × Keeps (putenv 4096 pair initial some_entropy) (λ r. Unit {0})
    × Keeps (setenv pair initial some_entropy) IsStatus
    × Keeps (unsetenv pair initial some_entropy) IsStatus
    × (refused (65 ∷ 61 ∷ []) ≡ true
        → (setenv pair initial some_entropy ≡ ok (minus_one, initial, some_entropy))
          × (unsetenv pair initial some_entropy ≡ ok (minus_one, initial, some_entropy)))
env-IsValid_example = env-IsValid 4096 initial some_entropy pair-IsString initial-IsValid

-- the letter A
blocks-Contract_example :
    MemcmpContract memcmp
    × MemchrContract 65 memchr
    × MemcpyContract memcpy
    × MemsetContract 65 memset
blocks-Contract_example = blocks-Contract 65 (omega arith)

finds-Contract_example : StrchrContract strchr × StrrchrContract 65 strrchr
finds-Contract_example = finds-Contract 65 (omega arith)
