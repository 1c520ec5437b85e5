-- ===== src/Mmodel/Bits.antt =====
-- The bit tables and loops that `realloc` uses: `nbr_bits_to_1` of
-- bittree_model/e_acsl_bittree_mmodel.c, and `setbits` of e_acsl_bits.h on an array of bytes.
use frama_c_snapshot.Prelude.{
  ℕ, zero, suc, ◌+◌, ◌-◌, ◌*◌, ◌/◌, ◌%◌, ◌≡◌, refl, Bool, true, none, some, List, [], ◌∷◌, ◌==◌,
  bit_or, get_elem?, get_or, set, ◌<◌, ==_iff, all_below, all_below-at,
}
use frama_c_snapshot.Prelude.Bits.{shr, pow2}
use frama_c_snapshot.Prelude.Run.{Run, ok, fault, ◌>>=◌}

abbrev pub nbr_bits_to_1 : List ℕ
nbr_bits_to_1 =
    0 ∷ 1 ∷ 1 ∷ 2 ∷ 1 ∷ 2 ∷ 2 ∷ 3 ∷ 1 ∷ 2 ∷ 2 ∷ 3 ∷ 2 ∷ 3 ∷ 3 ∷ 4 ∷ 1 ∷ 2 ∷ 2 ∷ 3 ∷ 2 ∷ 3 ∷ 3 ∷ 4
    ∷ 2 ∷ 3 ∷ 3 ∷ 4 ∷ 3 ∷ 4 ∷ 4 ∷ 5 ∷ 1 ∷ 2 ∷ 2 ∷ 3 ∷ 2 ∷ 3 ∷ 3 ∷ 4 ∷ 2 ∷ 3 ∷ 3 ∷ 4 ∷ 3 ∷ 4 ∷ 4 ∷ 5
    ∷ 2 ∷ 3 ∷ 3 ∷ 4 ∷ 3 ∷ 4 ∷ 4 ∷ 5 ∷ 3 ∷ 4 ∷ 4 ∷ 5 ∷ 4 ∷ 5 ∷ 5 ∷ 6 ∷ 1 ∷ 2 ∷ 2 ∷ 3 ∷ 2 ∷ 3 ∷ 3 ∷ 4
    ∷ 2 ∷ 3 ∷ 3 ∷ 4 ∷ 3 ∷ 4 ∷ 4 ∷ 5 ∷ 2 ∷ 3 ∷ 3 ∷ 4 ∷ 3 ∷ 4 ∷ 4 ∷ 5 ∷ 3 ∷ 4 ∷ 4 ∷ 5 ∷ 4 ∷ 5 ∷ 5 ∷ 6
    ∷ 2 ∷ 3 ∷ 3 ∷ 4 ∷ 3 ∷ 4 ∷ 4 ∷ 5 ∷ 3 ∷ 4 ∷ 4 ∷ 5 ∷ 4 ∷ 5 ∷ 5 ∷ 6 ∷ 3 ∷ 4 ∷ 4 ∷ 5 ∷ 4 ∷ 5 ∷ 5 ∷ 6
    ∷ 4 ∷ 5 ∷ 5 ∷ 6 ∷ 5 ∷ 6 ∷ 6 ∷ 7 ∷ 1 ∷ 2 ∷ 2 ∷ 3 ∷ 2 ∷ 3 ∷ 3 ∷ 4 ∷ 2 ∷ 3 ∷ 3 ∷ 4 ∷ 3 ∷ 4 ∷ 4 ∷ 5
    ∷ 2 ∷ 3 ∷ 3 ∷ 4 ∷ 3 ∷ 4 ∷ 4 ∷ 5 ∷ 3 ∷ 4 ∷ 4 ∷ 5 ∷ 4 ∷ 5 ∷ 5 ∷ 6 ∷ 2 ∷ 3 ∷ 3 ∷ 4 ∷ 3 ∷ 4 ∷ 4 ∷ 5
    ∷ 3 ∷ 4 ∷ 4 ∷ 5 ∷ 4 ∷ 5 ∷ 5 ∷ 6 ∷ 3 ∷ 4 ∷ 4 ∷ 5 ∷ 4 ∷ 5 ∷ 5 ∷ 6 ∷ 4 ∷ 5 ∷ 5 ∷ 6 ∷ 5 ∷ 6 ∷ 6 ∷ 7
    ∷ 2 ∷ 3 ∷ 3 ∷ 4 ∷ 3 ∷ 4 ∷ 4 ∷ 5 ∷ 3 ∷ 4 ∷ 4 ∷ 5 ∷ 4 ∷ 5 ∷ 5 ∷ 6 ∷ 3 ∷ 4 ∷ 4 ∷ 5 ∷ 4 ∷ 5 ∷ 5 ∷ 6
    ∷ 4 ∷ 5 ∷ 5 ∷ 6 ∷ 5 ∷ 6 ∷ 6 ∷ 7 ∷ 3 ∷ 4 ∷ 4 ∷ 5 ∷ 4 ∷ 5 ∷ 5 ∷ 6 ∷ 4 ∷ 5 ∷ 5 ∷ 6 ∷ 5 ∷ 6 ∷ 6 ∷ 7
    ∷ 4 ∷ 5 ∷ 5 ∷ 6 ∷ 5 ∷ 6 ∷ 6 ∷ 7 ∷ 5 ∷ 6 ∷ 6 ∷ 7 ∷ 6 ∷ 7 ∷ 7 ∷ 8 ∷ []

-- the bits of a byte that are set, counted one by one
unfoldable pub ones : ℕ → ℕ → ℕ
ones zero cell = 0
ones (suc k) cell = ones k cell + shr cell k % 2

unfoldable counts_at : ℕ → Bool
unfolding ones
counts_at cell = get_or nbr_bits_to_1 cell 0 == ones 8 cell

counts_all : all_below counts_at 256 ≡ true
unfolding counts_at
counts_all = refl

-- For every byte the table holds the number of its bits that are set.
pub nbr_bits_to_1-ones : (cell : ℕ) → cell < 256 → get_or nbr_bits_to_1 cell 0 ≡ ones 8 cell
unfolding counts_at
nbr_bits_to_1-ones cell p = (==_iff _ _).0 (all_below-at counts_at 256 cell counts_all p)

-- `*(lp+i) |= v` for a word of `k` bytes, the lowest at the lowest address. A byte outside of the
-- array is a fault.
unfoldable pub or_bytes : ℕ → ℕ → ℕ → List ℕ → Run (List ℕ)
or_bytes zero v start cells = ok cells
or_bytes (suc k) v start cells = elim (get_elem? cells start) [
  | none ↦ fault
  | some cell ↦ or_bytes k (v / 256) (start + 1) (set cells start (bit_or cell (v % 256)))
]

-- `ONE`
abbrev pub one64 : ℕ
one64 = 0xffff_ffff_ffff_ffff

-- `~(ONE << _bits)`
abbrev pub low_ones : ℕ → ℕ
low_ones bits = one64 - one64 * pow2 bits % pow2 64

unfoldable pub setbits_loop : ℕ → ℕ → List ℕ → Run (List ℕ)
unfolding or_bytes
setbits_loop zero i cells = ok cells
setbits_loop (suc rounds) i cells = or_bytes 8 one64 (8 * i) cells >>= setbits_loop rounds (i + 1)

-- `setbits(size_t size, void *ptr)`
unfoldable pub setbits : ℕ → List ℕ → Run (List ℕ)
unfolding setbits_loop
setbits size cells =
    setbits_loop (size / 64) 0 cells >>= or_bytes 8 (low_ones (size % 64)) (8 * (size / 64))
