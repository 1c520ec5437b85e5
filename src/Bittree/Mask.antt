-- ===== src/Bittree/Mask.antt =====
-- `mask` of e_acsl_bittree.h: the longest common prefix of two words, by a dichotomic search
-- through three tables.
pub mod Search
pub mod Prefix
use frama_c_snapshot.Prelude.{
  ℕ, zero, suc, ◌-◌, ◌/◌, ◌<◌, ◌≤◌, ◌≡◌, ◌↔◌, refl, sym, ap, ◌∙◌, Bool, true, false, ◌&&◌, Option,
  none, some, List, [], ◌∷◌, arith, ltb, leb, ◌==◌, ==_iff, leb→le, if◌then◌else◌, bit_xor,
  get_elem?, get_or, Bool-cases,
}
use frama_c_snapshot.Prelude.Bits.{shr, pow2}
use frama_c_snapshot.Bittree.Tables.{
  WordBits, w16, w32, w64, bits, Next, go, stop, tmasks, teq, tneq,
}

-- the greatest word, `~0ul`
abbrev pub word_max : WordBits → ℕ
word_max w = pow2 (bits w) - 1

-- The loop `while(i > 0)`, with fuel, and the read of `Tmasks[-i]` behind it. `none` is a read
-- outside of a table or the end of the fuel.
pub mask_loop : WordBits → ℕ → ℕ → Next → Option ℕ
mask_loop w nxor fuel (stop i) = get_elem? (tmasks w) i
mask_loop w nxor zero (go i) = none
mask_loop w nxor (suc fuel) (go i) = elim (get_elem? (tmasks w) i) [
  | none ↦ none
  | some m ↦ elim (get_elem? (if leb m nxor then teq w else tneq w) i) [
    | none ↦ none
    | some j ↦ mask_loop w nxor fuel j
  ]
]

-- `WORDBITS/2` is the start; `WORDBITS` rounds are enough, by `mask_search_lem`.
pub mask_search : WordBits → ℕ → Option ℕ
unfolding mask_loop
mask_search w nxor = mask_loop w nxor (bits w) (go (bits w / 2))

-- `static size_t mask(size_t a, size_t b)`. A search that fails, which `mask-mask_of` excludes,
-- would read as 0.
unfoldable pub mask : WordBits → ℕ → ℕ → ℕ
unfolding mask_search
mask w a b = elim (mask_search w (word_max w - bit_xor a b)) [ none ↦ 0 | some m ↦ m ]

-- The mask that clears the `j` lowest digits of a word.
abbrev pub mask_of : WordBits → ℕ → ℕ
mask_of w j = pow2 (bits w) - pow2 j
