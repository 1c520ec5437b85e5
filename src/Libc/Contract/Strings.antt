-- ===== src/Libc/Contract/Strings.antt =====
-- The contracts of share/libc/string.h for the functions that string.c defines, as predicates on
-- functions. A pointer is the list of the bytes from it to the end of its object, which are all
-- initialized; the source and the destination of a copy are two objects, hence separated. A
-- result that is a pointer is an offset in the object; of a function that returns its destination the
-- model has the new contents of that object, and not the pointer.
pub mod Blocks
pub mod Queries
pub mod Finds
pub mod Copies
pub mod Makes
use frama_c_snapshot.Prelude.{
  ℕ, ◌+◌, ◌%◌, ◌≤◌, ◌<◌, ◌≡◌, ◌≢◌, ◌⊎◌, ◌↔◌, Option, none, some, List, length, min, get_elem?,
}
use frama_c_snapshot.Prelude.Run.{Run, Ensures}
use frama_c_snapshot.Libc.Scan.Length.{IsString}
use frama_c_snapshot.Libc.Contract.Axioms.{MemcmpZero, Memchr, Memset}
use frama_c_snapshot.Libc.Contract.Axioms.Lengths.{byte_at, shift}

-- `valid_or_empty(s, n)` and `valid_read_or_empty(s, n)`
abbrev pub IsValid : List ℕ → ℕ → Type 0
IsValid s n = n ≤ length s

-- `strlen(s) == n`, by the axioms of `strlen`
abbrev pub HasStrlen : List ℕ → ℕ → Type 0
HasStrlen s n = (byte_at s n ≡ 0) × ((i : ℕ) → i < n → byte_at s i ≢ 0)

-- an object of bytes
abbrev pub AreBytes : List ℕ → Type 0
AreBytes s = (i : ℕ) → byte_at s i < 256

-- The bytes of an object from the offset `n` on are as they were, and so is its length: `assigns
-- dest[0..n-1]`.
abbrev pub AssignsBelow : ℕ → List ℕ → List ℕ → Type 0
AssignsBelow n dest out =
    (length out ≡ length dest) × ((k : ℕ) → n ≤ k → get_elem? out k ≡ get_elem? dest k)

abbrev pub MemcmpContract : (ℕ → List ℕ → List ℕ → Run ℕ) → Type 0
MemcmpContract memcmp =
    (n : ℕ) (s1 s2 : List ℕ)
    → AreBytes s1
    → AreBytes s2
    → IsValid s1 n
    → IsValid s2 n
    → Ensures (memcmp n s1 s2) (λ r. r ≡ 0 ↔ MemcmpZero byte_at shift s1 s2 n)

-- At a `c` below 128, for which `s[i] == c` is the same for signed and for unsigned characters. The
-- second case of `valid` is that of an object that ends behind the offset `memchr_off` of a `c`.
abbrev pub MemchrContract : ℕ → (List ℕ → ℕ → ℕ → Run (Option ℕ)) → Type 0
MemchrContract c memchr =
    (s : List ℕ) (n : ℕ)
    → IsValid s n ⊎ ((off : ℕ) × (off < n) × (off < length s) × (byte_at s off ≡ c))
    → Ensures (memchr s c n) (λ r.
      (Memchr byte_at shift s c n
        → (i : ℕ) × (r ≡ some i) × (byte_at s i ≡ c) × ((j : ℕ) → j < n → byte_at s j ≡ c → i ≤ j))
      × (¬ Memchr byte_at shift s c n → r ≡ none))

abbrev pub MemcpyContract : (List ℕ → List ℕ → ℕ → Run (List ℕ)) → Type 0
MemcpyContract memcpy =
    (dest src : List ℕ) (n : ℕ)
    → IsValid dest n
    → IsValid src n
    → Ensures (memcpy dest src n)
        (λ out. MemcmpZero byte_at shift out src n × AssignsBelow n dest out)

-- At a `c` below 128, for which `s[i] == c` is the same for signed and for unsigned characters.
abbrev pub MemsetContract : ℕ → (List ℕ → ℕ → ℕ → Run (List ℕ)) → Type 0
MemsetContract c memset =
    (s : List ℕ) (n : ℕ)
    → IsValid s n
    → Ensures (memset s c n) (λ out. Memset byte_at shift out c n × AssignsBelow n s out)

-- `strcmp(s1, s2) == 0` of strings with `n` characters, by `strcmp_zero`
abbrev pub StrcmpZero : List ℕ → List ℕ → ℕ → Type 0
StrcmpZero s1 s2 n =
    HasStrlen s1 n × HasStrlen s2 n × ((i : ℕ) → i ≤ n → byte_at s1 i ≡ byte_at s2 i)

-- `valid_read_string(s)` is that `s` begins with the string of some characters; `valid_read_nstring(s, n)`:
abbrev pub IsNstring : List ℕ → ℕ → Type 0
IsNstring s n = (n ≤ length s) ⊎ ((cs : List ℕ) × IsString s cs)

abbrev pub StrlenContract : (List ℕ → Run ℕ) → Type 0
StrlenContract strlen = (s cs : List ℕ) → IsString s cs → Ensures (strlen s) (λ r. HasStrlen s r)

abbrev pub StrnlenContract : (List ℕ → ℕ → Run ℕ) → Type 0
StrnlenContract strnlen =
    (s : List ℕ) (n : ℕ) → IsNstring s n → Ensures (strnlen s n) (λ r. HasStrlen s r ⊎ (r ≡ n))

abbrev pub StrcmpContract : (List ℕ → List ℕ → Run ℕ) → Type 0
StrcmpContract strcmp =
    (s1 s2 cs ds : List ℕ)
    → IsString s1 cs
    → IsString s2 ds
    → Ensures (strcmp s1 s2) (λ r. r ≡ 0 ↔ ((n : ℕ) × StrcmpZero s1 s2 n))

-- By `strncmp_zero`.
abbrev pub StrncmpContract : (List ℕ → List ℕ → ℕ → Run ℕ) → Type 0
StrncmpContract strncmp =
    (s1 s2 : List ℕ) (n : ℕ)
    → AreBytes s1
    → AreBytes s2
    → IsNstring s1 n
    → IsNstring s2 n
    → Ensures (strncmp s1 s2 n)
        (λ r. r ≡ 0 ↔ ((k : ℕ) × (k < n) × StrcmpZero s1 s2 k) ⊎ MemcmpZero byte_at shift s1 s2 n)

-- `strchr(s, c)`, by `strchr_def`, for a string of `n` characters
abbrev pub Strchr : List ℕ → ℕ → ℕ → Type 0
Strchr s c n = (i : ℕ) × (i ≤ n) × (byte_at s i ≡ c % 256)

-- `result_char`, `result_in_length` and `result_first_occur` of `strchr`
abbrev pub StrchrContract : (List ℕ → ℕ → Run (Option ℕ)) → Type 0
StrchrContract strchr =
    (s cs : List ℕ) (c : ℕ)
    → IsString s cs
    → Ensures (strchr s c) (λ r.
      (Strchr s c (length cs)
        → (i : ℕ) × (r ≡ some i)
          × (byte_at s i ≡ c % 256)
          × (i ≤ length cs)
          × ((j : ℕ) → j < i → byte_at s j ≢ c % 256))
      × (¬ Strchr s c (length cs) → r ≡ none))

-- At a `c` below 128, for which `*\result == c` is the same for signed and for unsigned characters. The
-- result points into the string, so that it points to a string too.
abbrev pub StrrchrContract : ℕ → (List ℕ → ℕ → Run (Option ℕ)) → Type 0
StrrchrContract c strrchr =
    (s cs : List ℕ)
    → IsString s cs
    → Ensures (strrchr s c) (λ r.
      (Strchr s c (length cs) → (i : ℕ) × (r ≡ some i) × (byte_at s i ≡ c) × (i ≤ length cs))
      × (¬ Strchr s c (length cs) → r ≡ none))

-- The bytes of an object other than the `n` from `i` on are as they were: `assigns dest[i..i+n-1]`.
abbrev pub Assigns : ℕ → ℕ → List ℕ → List ℕ → Type 0
Assigns i n dest out =
    (length out ≡ length dest)
    × ((k : ℕ) → (k < i) ⊎ (i + n ≤ k) → get_elem? out k ≡ get_elem? dest k)

abbrev pub StrcpyContract : (List ℕ → List ℕ → Run (List ℕ)) → Type 0
StrcpyContract strcpy =
    (dest src cs : List ℕ)
    → IsString src cs
    → length cs < length dest
    → Ensures (strcpy dest src)
        (λ out. StrcmpZero out src (length cs) × Assigns 0 (length cs + 1) dest out)

-- The behaviors `complete` and `partial`.
abbrev pub StrncpyContract : (List ℕ → List ℕ → ℕ → Run (List ℕ)) → Type 0
StrncpyContract strncpy =
    (dest src cs : List ℕ) (n : ℕ)
    → IsString src cs
    → IsValid dest n
    → Ensures (strncpy dest src n) (λ out.
      (length cs < n → StrcmpZero out src (length cs))
      × (n ≤ length cs → MemcmpZero byte_at shift out src n)
      × Assigns 0 n dest out)

-- The contract of `strcat`, like that of `strncat`, has no `separation`, which it notes; here the two
-- lists are two objects.
abbrev pub StrcatContract : (List ℕ → List ℕ → Run (List ℕ)) → Type 0
StrcatContract strcat =
    (dest src ds cs : List ℕ)
    → IsString dest ds
    → IsString src cs
    → length ds + length cs < length dest
    → Ensures (strcat dest src) (λ out.
      HasStrlen out (length ds + length cs) × Assigns (length ds) (length cs + 1) dest out)

-- The behavior `complete` of `strncat`, for a source with a terminator among its first `n + 1` bytes,
-- and `partial`, for any other source of at least `n` bytes.
abbrev pub StrncatContract : (List ℕ → List ℕ → ℕ → Run (List ℕ)) → Type 0
StrncatContract strncat =
    (dest src ds : List ℕ) (n : ℕ)
    → IsString dest ds
    → AreBytes src
    → IsNstring src n
    → ((cs : List ℕ)
        → IsString src cs
        → length cs ≤ n
        → length ds + length cs < length dest
        → Ensures (strncat dest src n) (λ out.
          HasStrlen out (length ds + length cs) × Assigns (length ds) (length cs + 1) dest out))
      × (¬ ((cs : List ℕ) × IsString src cs × (length cs ≤ n))
          → length ds + n < length dest
          → Ensures (strncat dest src n)
              (λ out. HasStrlen out (length ds + n) × Assigns (length ds) (n + 1) dest out))
