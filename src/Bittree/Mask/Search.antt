-- ===== src/Bittree/Mask/Search.antt =====
-- The dichotomic search finds the longest common prefix, at each of the three widths.
use frama_c_snapshot.Prelude.{
  ℕ, zero, suc, ◌-◌, ◌/◌, ◌<◌, ◌≤◌, ◌≡◌, ◌↔◌, refl, sym, ap, ◌∙◌, Bool, true, false, ◌&&◌, none,
  some, List, [], ◌∷◌, arith, leb, ◌==◌, ==_iff, if◌then◌else◌, bit_xor, get_elem?, inl, inr,
  Bool-cases, Option-cases,
}
use mathlib.Core.Bool.{false≢true}
use frama_c_snapshot.Prelude.Bits.{
  shr, pow2, pow2_mono, pow2_lt, shr_halve, shr_all, lt-pow2_of_shr, shr-bit_xor, eq_of_bit_xor,
  bit_xor_self,
}
use frama_c_snapshot.Bittree.Tables.{
  WordBits, w16, w32, w64, bits, Next, go, stop, tmasks, teq, tneq,
}
use frama_c_snapshot.Bittree.Mask.{word_max, mask_loop, mask_search, mask, mask_of}

-- The number of digits behind the common prefix of two words of `k` digits.
pub diff : ℕ → ℕ → ℕ → ℕ
diff zero a b = 0
diff (suc k) a b = if a == b then 0 else suc (diff k (a / 2) (b / 2))

pub diff-le : (k a b : ℕ) → diff k a b ≤ k
unfolding diff
diff-le zero a b = omega arith
diff-le (suc k) a b = ground (arith, diff-le k (a / 2) (b / 2))

-- Two words agree above the `j` lowest digits exactly when `j` reaches over their difference.
pub leb-diff :
    (k j a b : ℕ) → j ≤ k → a < pow2 k → b < pow2 k → leb (diff k a b) j ≡ (shr a j == shr b j)
unfolding diff
leb-diff zero zero a b h p q = ground arith
leb-diff zero (suc j) a b h p q = absurd (omega arith)
leb-diff (suc k) zero a b h p q = ground arith
leb-diff (suc k) (suc j) a b h p q =
    rw (← shr_halve a j, ← shr_halve b j)
      (ground (arith, leb-diff k j (a / 2) (b / 2) (omega arith) (omega arith) (omega arith)))

-- The masks of a word of `n` digits with at most `k` zeros, from the shortest prefix.
masks_from : ℕ → ℕ → List ℕ
masks_from n zero = (pow2 n - 1) ∷ []
masks_from n (suc k) = (pow2 n - pow2 (suc k)) ∷ masks_from n k

masks_from_entry :
    (n k i m : ℕ)
    → get_elem? (masks_from n k) i ≡ some m
    → (j : ℕ) × (j ≤ k) × (m ≡ pow2 n - pow2 j)
unfolding masks_from
masks_from_entry n zero zero m h = (0, omega arith, ground arith)
masks_from_entry n zero (suc i) m h = cc
masks_from_entry n (suc k) zero m h = (suc k, omega arith, ground arith)
masks_from_entry n (suc k) (suc i) m h =
    let (j, p, q) = masks_from_entry n k i m h in (j, omega arith, q)

tmasks-masks_from : (w : WordBits) → tmasks w ≡ masks_from (bits w) (bits w)
unfolding masks_from
tmasks-masks_from w16 = refl
tmasks-masks_from w32 = refl
tmasks-masks_from w64 = refl

-- `nxor` passes the same tests as the mask `m`.
abbrev SameTests : WordBits → ℕ → ℕ → Type 0
SameTests w nxor m = (i t : ℕ) → get_elem? (tmasks w) i ≡ some t → leb t nxor ≡ leb t m

mask_loop_cong :
    (w : WordBits) (nxor m fuel : ℕ) (x : Next)
    → SameTests w nxor m
    → mask_loop w nxor fuel x ≡ mask_loop w m fuel x
unfolding mask_loop
mask_loop_cong w nxor m fuel (stop i) h = refl
mask_loop_cong w nxor m zero (go i) h = refl
mask_loop_cong w nxor m (suc fuel) (go i) h = elim (Option-cases (get_elem? (tmasks w) i)) [
  | inl e ↦ rw (e, mask_loop)
  | inr (t, e) ↦
      rw (e, mask_loop, h i t e)
        (elim (Option-cases (get_elem? (if leb t m then teq w else tneq w) i)) [
          | inl f ↦ rw (f, mask_loop)
          | inr (y, f) ↦ rw (f, mask_loop) (mask_loop_cong w nxor m fuel y h)
        ])
]

-- On the masks themselves the search is right: every one is tried.
finds : WordBits → ℕ → Bool
finds w j = elim (mask_search w (mask_of w j)) [ none ↦ false | some m ↦ m == mask_of w j ]

finds_up_to : WordBits → ℕ → Bool
finds_up_to w zero = finds w zero
finds_up_to w (suc j) = finds w (suc j) && finds_up_to w j

finds_all : (w : WordBits) → finds_up_to w (bits w) ≡ true
unfolding finds_up_to finds mask_search
finds_all w16 = refl
finds_all w32 = refl
finds_all w64 = refl

finds_of_up_to : (w : WordBits) (k j : ℕ) → finds_up_to w k ≡ true → j ≤ k → finds w j ≡ true
unfolding finds_up_to
finds_of_up_to w zero zero h p = h
finds_of_up_to w zero (suc j) h p = absurd (omega arith)
finds_of_up_to w (suc k) j h p = elim (Bool-cases (j == suc k)) [
  | inl e ↦ let q : j ≡ suc k = ground arith in rw q (ground arith)
  | inr n ↦ finds_of_up_to w k j (ground arith) (ground arith)
]

search_of_finds :
    (w : WordBits) (j : ℕ) → finds w j ≡ true → mask_search w (mask_of w j) ≡ some (mask_of w j)
unfolding finds
search_of_finds w j h = elim (Option-cases (mask_search w (mask_of w j))) [
  | inl e ↦ absurd (false≢true (rw (e, finds) at h))
  | inr (m, e) ↦ e ∙ ap some ((==_iff m (mask_of w j)).0 (rw (e, finds) at h))
]

-- The search answers the mask that passes the same tests.
mask_search_lem :
    (w : WordBits) (nxor j : ℕ)
    → j ≤ bits w
    → SameTests w nxor (mask_of w j)
    → mask_search w nxor ≡ some (mask_of w j)
unfolding mask_search
mask_search_lem w nxor j p h =
    mask_loop_cong w nxor (mask_of w j) (bits w) (go (bits w / 2)) h
    ∙ search_of_finds w j (finds_of_up_to w (bits w) j (finds_all w) p)

bit_xor-lt : (n a b : ℕ) → a < pow2 n → b < pow2 n → bit_xor a b < pow2 n
bit_xor-lt n a b p q =
    lt-pow2_of_shr (bit_xor a b) n
      (shr-bit_xor a b n ∙ rw (shr_all a n p, shr_all b n q) (bit_xor_self 0))

-- The exclusive or is short exactly where the words agree.
xor_agree : (n a b j : ℕ) → (bit_xor a b < pow2 j) ↔ (shr a j ≡ shr b j)
xor_agree n a b j = (
  λ h. eq_of_bit_xor (shr a j) (shr b j) (sym (shr-bit_xor a b j) ∙ shr_all (bit_xor a b) j h),
  λ e. lt-pow2_of_shr (bit_xor a b) j (shr-bit_xor a b j ∙ rw e (bit_xor_self (shr b j))),
)

nxor_tests :
    (w : WordBits) (a b : ℕ)
    → a < pow2 (bits w)
    → b < pow2 (bits w)
    → SameTests w (word_max w - bit_xor a b) (mask_of w (diff (bits w) a b))
nxor_tests w a b p q i t e =
    let (j, le, eq) = masks_from_entry (bits w) (bits w) i t (rw tmasks-masks_from at e) in
    let d = diff (bits w) a b in
    let r = leb-diff (bits w) j a b le p q in
    let x = bit_xor-lt (bits w) a b p q in
    let u = pow2_mono j (bits w) le in
    let v = pow2_mono d (bits w) (diff-le (bits w) a b) in
    rw eq (elim (Bool-cases (shr a j == shr b j)) [
      | inl yes' ↦
          let g : bit_xor a b < pow2 j = (xor_agree (bits w) a b j).1 (ground arith) in
          let k : pow2 d ≤ pow2 j = pow2_mono d j (ground arith) in ground arith
      | inr no' ↦
          let g : ¬ (bit_xor a b < pow2 j) =
            λ h. (let f = (xor_agree (bits w) a b j).0 h in ground arith) in
          let k : pow2 j < pow2 d = pow2_lt j d (ground arith) in ground arith
    ])

-- `mask` is the mask of the common prefix.
pub mask-mask_of :
    (w : WordBits) (a b : ℕ)
    → a < pow2 (bits w)
    → b < pow2 (bits w)
    → mask w a b ≡ mask_of w (diff (bits w) a b)
unfolding mask
mask-mask_of w a b p q = rw (
  mask_search_lem w (word_max w - bit_xor a b) (diff (bits w) a b) (diff-le (bits w) a b)
      (nxor_tests w a b p q),
  mask,
)

masks_from_of :
    (n k j : ℕ)
    → j ≤ k
    → (i : ℕ) × (i ≤ k) × (get_elem? (masks_from n k) i ≡ some (pow2 n - pow2 j))
unfolding masks_from
masks_from_of n zero j h = let e : j ≡ 0 = omega arith in (0, omega arith, rw e)
masks_from_of n (suc k) j h = elim (Bool-cases (j == suc k)) [
  | inl e ↦ let q : j ≡ suc k = ground arith in (0, omega arith, rw q)
  | inr ne ↦ let (i, p, q) = masks_from_of n k j (ground arith) in (suc i, omega arith, q)
]

-- Every mask is an entry of the table.
pub tmasks-mask_of :
    (w : WordBits) (j : ℕ)
    → j ≤ bits w
    → (i : ℕ) × (i ≤ bits w) × (get_elem? (tmasks w) i ≡ some (mask_of w j))
tmasks-mask_of w j h = rw tmasks-masks_from (masks_from_of (bits w) (bits w) j h)

-- Every entry of the table is a mask.
pub tmasks_entry :
    (w : WordBits) (i t : ℕ)
    → get_elem? (tmasks w) i ≡ some t
    → (j : ℕ) × (j ≤ bits w) × (t ≡ mask_of w j)
tmasks_entry w i t e = masks_from_entry (bits w) (bits w) i t (rw tmasks-masks_from at e)

-- `WORDBITS` rounds of the loop are enough, and no read leaves a table.
pub mask_search_total :
    (w : WordBits) (a b : ℕ)
    → a < pow2 (bits w)
    → b < pow2 (bits w)
    → mask_search w (word_max w - bit_xor a b) ≡ some (mask w a b)
mask_search_total w a b p q =
    mask_search_lem w (word_max w - bit_xor a b) (diff (bits w) a b) (diff-le (bits w) a b)
      (nxor_tests w a b p q)
    ∙ ap some (sym (mask-mask_of w a b p q))
