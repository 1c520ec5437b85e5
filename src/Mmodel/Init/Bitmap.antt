-- ===== src/Mmodel/Init/Bitmap.antt =====
-- The bits of an array of cells, and how many of them are set.
use frama_c_snapshot.Prelude.{
  ℕ, zero, suc, ◌+◌, ◌/◌, ◌%◌, ◌<◌, ◌≤◌, ◌≡◌, refl, Bool, true, false, ◌||◌, none, some, List, [],
  ◌∷◌, arith, ◌==◌, if◌then◌else◌, inl, inr, Bool-cases, Option-cases, get_elem?, set, length,
  replicate, get_elem?-set_self, get_elem?-set_ne,
}
use frama_c_snapshot.Prelude.Bits.{pow2, digit-bit_or, digit-pow2_self, digit-pow2_other, shr-zero}
use frama_c_snapshot.Mmodel.Init.{checkbit, setbit}

-- the bit of the array that stands for the byte `i`
unfoldable pub bit_at : List ℕ → ℕ → Bool
bit_at cells i = elim (get_elem? cells (i / 8)) [
  | none ↦ false
  | some cell ↦ checkbit (i % 8) cell == 1
]

-- of the first `n` bytes, how many satisfy `f`
unfoldable pub count : (ℕ → Bool) → ℕ → ℕ
count f zero = 0
count f (suc n) = count f n + (if f n then 1 else 0)

pub count-le : (f : ℕ → Bool) (n : ℕ) → count f n ≤ n
unfolding count
count-le f zero = omega arith
count-le f (suc n) = ground (arith, count-le f n)

pub count_full : (f : ℕ → Bool) (n i : ℕ) → count f n ≡ n → i < n → f i ≡ true
unfolding count
count_full f zero i h p = absurd (omega arith)
count_full f (suc n) i h p = elim (Bool-cases (i == n)) [
  | inl e ↦ let q : i ≡ n = ground arith in rw q (ground (arith, count-le f n))
  | inr e ↦ count_full f n i (ground (arith, count-le f n)) (ground arith)
]

pub count_none : (f : ℕ → Bool) (n i : ℕ) → count f n ≡ 0 → i < n → f i ≡ false
unfolding count
count_none f zero i h p = absurd (omega arith)
count_none f (suc n) i h p = elim (Bool-cases (i == n)) [
  | inl e ↦ let q : i ≡ n = ground arith in rw q (ground arith)
  | inr e ↦ count_none f n i (ground arith) (ground arith)
]

pub count_same : (f g : ℕ → Bool) (n : ℕ) → ((i : ℕ) → i < n → g i ≡ f i) → count g n ≡ count f n
unfolding count
count_same f g zero h = refl
count_same f g (suc n) h =
    ground (arith, count_same f g n (λ i p. h i (omega arith)), h n (omega arith))

-- one more
pub count_mark :
    (f g : ℕ → Bool) (n j : ℕ)
    → j < n
    → f j ≡ false
    → ((i : ℕ) → g i ≡ (i == j || f i))
    → count g n ≡ suc (count f n)
unfolding count
count_mark f g zero j p e h = absurd (omega arith)
count_mark f g (suc n) j p e h = elim (Bool-cases (n == j)) [
  | inl q ↦
      let r : n ≡ j = ground arith in
      let s = count_same f g n (λ i lt. ground (arith, h i)) in
      let t : f n ≡ false = rw r e in ground (arith, h n)
  | inr q ↦ ground (arith, count_mark f g n j (ground arith) e h, h n)
]

pub count_zero_cells : (f : ℕ → Bool) (n : ℕ) → ((i : ℕ) → i < n → f i ≡ false) → count f n ≡ 0
unfolding count
count_zero_cells f zero h = refl
count_zero_cells f (suc n) h =
    ground (arith, count_zero_cells f n (λ i p. h i (omega arith)), h n (omega arith))

-- setting one bit of a cell
pub checkbit-setbit :
    (i j cell : ℕ) → (checkbit i (setbit j cell) == 1) ≡ (i == j || (checkbit i cell == 1))
checkbit-setbit i j cell = elim (Bool-cases (i == j)) [
  | inl e ↦
      let q : i ≡ j = ground arith in
      rw q (ground (arith, digit-bit_or cell (pow2 j) j, digit-pow2_self j))
  | inr e ↦ ground (arith, digit-bit_or cell (pow2 j) i, digit-pow2_other j i)
]

pub lt-length :
    (cells : List ℕ) (k : ℕ) {cell : ℕ} → get_elem? cells k ≡ some cell → k < length cells
lt-length [] k h = cc
lt-length (c ∷ cells) zero h = omega arith
lt-length (c ∷ cells) (suc k) h = omega (arith, lt-length cells k h)

pub get-of_lt :
    (cells : List ℕ) (k : ℕ) → k < length cells → (cell : ℕ) × (get_elem? cells k ≡ some cell)
get-of_lt [] k h = absurd (omega arith)
get-of_lt (c ∷ cells) zero h = (c, refl)
get-of_lt (c ∷ cells) (suc k) h = get-of_lt cells k (omega arith)

pub bit_of_cell :
    (cells : List ℕ) (i : ℕ) {cell : ℕ}
    → get_elem? cells (i / 8) ≡ some cell
    → bit_at cells i ≡ (checkbit (i % 8) cell == 1)
unfolding bit_at
bit_of_cell cells i h = rw (h, bit_at)

get-replicate : (n k : ℕ) {cell : ℕ} → get_elem? (replicate n 0) k ≡ some cell → cell ≡ 0
get-replicate zero k h = cc
get-replicate (suc n) zero h = ground arith
get-replicate (suc n) (suc k) h = get-replicate n k h

-- setting the bit of one byte
pub bit_at-set :
    (cells : List ℕ) (i j cell : ℕ)
    → get_elem? cells (j / 8) ≡ some cell
    → bit_at (set cells (j / 8) (setbit (j % 8) cell)) i ≡ (i == j || bit_at cells i)
unfolding bit_at
bit_at-set cells i j cell h = elim (Bool-cases (i / 8 == j / 8)) [
  | inl e ↦
      let q : i / 8 ≡ j / 8 = ground arith in
      let v = setbit (j % 8) cell in
      let s = get_elem?-set_self cells (j / 8) v (lt-length cells (j / 8) h) in
      let d : (i % 8 == j % 8) ≡ (i == j) = ground arith in
      rw (q, bit_at, s, h, checkbit-setbit (i % 8) (j % 8) cell, d)
  | inr e ↦
      let s =
        get_elem?-set_ne cells {i = j / 8} {j = i / 8} (setbit (j % 8) cell) (λ f. ground arith) in
      let d : (i == j) ≡ false = ground arith in rw (s, bit_at, d)
]

-- in an array of zeros no bit is set
pub bit_at-zeros : (n i : ℕ) → bit_at (replicate n 0) i ≡ false
unfolding bit_at
bit_at-zeros n i =
    let zeros : List ℕ = replicate n 0 in
    elim (Option-cases (get_elem? zeros (i / 8))) [
      | inl e ↦ rw (e, bit_at)
      | inr (cell, e) ↦ rw (e, bit_at, get-replicate n (i / 8) e, shr-zero (i % 8))
    ]
