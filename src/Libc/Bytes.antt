-- ===== src/Libc/Bytes.antt =====
-- The bytes of an object, and the functions of share/libc/string.c that copy and compare blocks of
-- bytes: `memcpy`, `memoverlap`, `memmove`, `memset`, `memcmp`, `memchr` and `memrchr`. An access
-- out of the object is a fault.
pub mod Move
use frama_c_snapshot.Prelude.{
  ℕ, zero, suc, ◌+◌, ◌-◌, ◌%◌, Bool, true, false, ◌&&◌, Option, none, some, List, [], ◌∷◌, ◌==◌,
  leb, ltb, if◌then◌else◌, get_elem?, set, length,
}
use frama_c_snapshot.Prelude.Bits.{pow2}
use frama_c_snapshot.Prelude.Run.{Run, ok, abort, fault, ◌>>=◌, of_option}

-- `p[i]`
abbrev pub read : List ℕ → ℕ → Run ℕ
read cells i = of_option (get_elem? cells i)

-- `p[i] = v`
abbrev pub write : List ℕ → ℕ → ℕ → Run (List ℕ)
write cells i v = elim (get_elem? cells i) [ none ↦ fault | some _ ↦ ok (set cells i v) ]

-- `p[i] - q[i]` of two `unsigned char`s, as the word of an `int`
abbrev pub byte_diff : ℕ → ℕ → ℕ
byte_diff a b = (a + pow2 32 - b) % pow2 32

-- the loop of `memcpy`, for the `n` offsets from `i`, of two objects
unfoldable pub copy_bytes : ℕ → ℕ → List ℕ → List ℕ → Run (List ℕ)
copy_bytes zero i dest src = ok dest
copy_bytes (suc n) i dest src =
    read src i >>= λ c. write dest i c >>= λ dest'. copy_bytes n (i + 1) dest' src

unfoldable pub memcpy : List ℕ → List ℕ → ℕ → Run (List ℕ)
unfolding copy_bytes
memcpy dest src n = copy_bytes n 0 dest src

-- The results -1, 0 and 1 of `memoverlap`.
pub data Overlap : Type 0 where
  before apart after : Overlap

-- `memoverlap`, on the addresses of two blocks in one address space
unfoldable pub memoverlap : ℕ → ℕ → ℕ → Overlap
memoverlap p q n =
    if leb p q && ltb q (p + n) then before else if leb q p && ltb p (q + n) then after else apart

-- the first loop of `memmove`, for the `n` offsets from `i`
unfoldable pub copy_up : ℕ → ℕ → ℕ → ℕ → List ℕ → Run (List ℕ)
copy_up zero i d s cells = ok cells
copy_up (suc n) i d s cells =
    read cells (s + i) >>= λ c. write cells (d + i) c >>= copy_up n (i + 1) d s

-- the second one, from `i` down to 1, and the copy at 0 behind it
unfoldable pub copy_down : ℕ → ℕ → ℕ → List ℕ → Run (List ℕ)
copy_down zero d s cells = read cells s >>= λ c. write cells d c
copy_down (suc i) d s cells =
    read cells (s + suc i) >>= λ c. write cells (d + suc i) c >>= copy_down i d s

-- `memmove` between two places of one object
unfoldable pub memmove : ℕ → ℕ → ℕ → List ℕ → Run (List ℕ)
unfolding memoverlap copy_up copy_down
memmove d s zero cells = ok cells
memmove d s (suc n) cells = elim (memoverlap d s (suc n)) [
  | before ↦ copy_up (suc n) 0 d s cells
  | apart ↦ copy_up (suc n) 0 d s cells
  | after ↦ copy_down n d s cells
]

-- the loop of `memset`, for the `n` offsets from `i`
unfoldable pub fill_bytes : ℕ → ℕ → ℕ → List ℕ → Run (List ℕ)
fill_bytes zero i c cells = ok cells
fill_bytes (suc n) i c cells = write cells i (c % 256) >>= fill_bytes n (i + 1) c

unfoldable pub memset : List ℕ → ℕ → ℕ → Run (List ℕ)
unfolding fill_bytes
memset s c n = fill_bytes n 0 c s

unfoldable pub memcmp : ℕ → List ℕ → List ℕ → Run ℕ
memcmp zero s1 s2 = ok 0
memcmp (suc n) [] s2 = fault
memcmp (suc n) (a ∷ s1) [] = fault
memcmp (suc n) (a ∷ s1) (b ∷ s2) = elim (a == b) [
  | true ↦ memcmp n s1 s2
  | false ↦ ok (byte_diff a b)
]

-- the loop of `memchr` from the offset `i`; the result is an offset
unfoldable pub scan_up : ℕ → ℕ → ℕ → List ℕ → Run (Option ℕ)
scan_up zero i ch s = ok none
scan_up (suc n) i ch s =
    read s i >>= λ c. elim (c == ch) [ true ↦ ok (some i) | false ↦ scan_up n (i + 1) ch s ]

unfoldable pub memchr : List ℕ → ℕ → ℕ → Run (Option ℕ)
unfolding scan_up
memchr s c n = scan_up n 0 (c % 256) s

-- the loop of `memrchr`, and of `strrchr`
unfoldable pub scan_down : ℕ → ℕ → List ℕ → Run (Option ℕ)
scan_down zero ch s = ok none
scan_down (suc i) ch s =
    read s i >>= λ c. elim (c == ch) [ true ↦ ok (some i) | false ↦ scan_down i ch s ]

unfoldable pub memrchr : List ℕ → ℕ → ℕ → Run (Option ℕ)
unfolding scan_down
memrchr s c n = scan_down n (c % 256) s
