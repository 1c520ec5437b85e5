-- ===== src/Libc/Ctype.antt =====
-- share/libc/ctype.c, in the locale "C". An `int` is the word of its 32 bits, so a negative number
-- is above all characters. The functions that return an unknown value (`iscntrl`, `isgraph`,
-- `isprint`, `ispunct`) are left out.
use frama_c_snapshot.Prelude.{
  ℕ, ◌+◌, ◌-◌, ◌≡◌, Bool, true, false, ◌&&◌, ◌||◌, ◌==◌, leb, if◌then◌else◌, arith,
}

-- `ISDIGIT`
unfoldable pub isdigit : ℕ → Bool
isdigit c = leb 48 c && leb c 57

-- `ISXDIGIT`
unfoldable pub isxdigit : ℕ → Bool
unfolding isdigit
isxdigit c = isdigit c || leb 97 c && leb c 102 || leb 65 c && leb c 70

-- `ISLOWER`
unfoldable pub islower : ℕ → Bool
islower c = leb 97 c && leb c 122

-- `ISUPPER`
unfoldable pub isupper : ℕ → Bool
isupper c = leb 65 c && leb c 90

-- `ISALPHA`
unfoldable pub isalpha : ℕ → Bool
unfolding isupper islower
isalpha c = isupper c || islower c

-- `ISALNUM`
unfoldable pub isalnum : ℕ → Bool
unfolding isalpha isdigit
isalnum c = isalpha c || isdigit c

-- `ISSPACE`
unfoldable pub isspace : ℕ → Bool
isspace c = c == 32 || c == 12 || c == 10 || c == 13 || c == 9 || c == 11

-- `ISBLANK(c)||ISSPACE(c)`
unfoldable pub isblank : ℕ → Bool
unfolding isspace
isblank c = (c == 32 || c == 9) || isspace c

unfoldable pub tolower : ℕ → ℕ
tolower c = if leb 65 c && leb c 90 then c + 0x20 else c

unfoldable pub toupper : ℕ → ℕ
toupper c = if leb 97 c && leb c 122 then c - 0x20 else c

-- `tolower` is idempotent, undoes `toupper`, leaves no upper case letter, and changes only the
-- case of letters: what is a letter or a digit stays one, and nothing else becomes one.
pub tolower_cases :
    (c : ℕ)
    → (tolower (tolower c) ≡ tolower c)
      × (tolower (toupper c) ≡ tolower c)
      × (isupper (tolower c) ≡ false)
      × (isalpha (tolower c) ≡ isalpha c)
      × (isdigit (tolower c) ≡ isdigit c)
unfolding tolower toupper isupper isalpha islower isdigit
tolower_cases c = (ground arith, ground arith, ground arith, ground arith, ground arith)

-- A character is in at most one of the classes of lower case letters, upper case letters, digits
-- and spaces; `isalnum` is the union of the first three, and `toupper` and `tolower` map the first
-- two to each other and back.
pub classes_apart :
    (c : ℕ)
    → (islower c ≡ true
        → (isupper c ≡ false)
          × (isdigit c ≡ false)
          × (isspace c ≡ false)
          × (isupper (toupper c) ≡ true)
          × (tolower (toupper c) ≡ c))
      × (isupper c ≡ true
          → (isdigit c ≡ false)
            × (isspace c ≡ false)
            × (islower (tolower c) ≡ true)
            × (toupper (tolower c) ≡ c))
      × (isdigit c ≡ true → (isspace c ≡ false) × (isxdigit c ≡ true))
      × (isalnum c ≡ (islower c || isupper c || isdigit c))
unfolding tolower toupper isupper isalpha islower isdigit isspace isxdigit isalnum
classes_apart c = (
  (λ h. (ground arith, ground arith, ground arith, ground arith, ground arith)),
  (λ h. (ground arith, ground arith, ground arith, ground arith)),
  (λ h. (ground arith, ground arith)),
  ground arith,
)
