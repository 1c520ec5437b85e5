-- ===== src/Mmodel/Init/Blocks.antt =====
-- `initialize` marks the bytes that it is given in a block and no others, and `initialized` answers
-- for the bytes that it is asked for.
use frama_c_snapshot.Prelude.{
  ℕ, zero, suc, ◌+◌, ◌*◌, ◌/◌, ◌%◌, ◌<◌, ◌≤◌, ◌≡◌, refl, ap, sym, ◌∙◌, Bool, true, false, ◌||◌,
  ◌&&◌, none, some, List, arith, ◌==◌, if◌then◌else◌, ltb, min, inl, inr, Bool-cases, length,
}
use frama_c_snapshot.Prelude.Bits.{pow2}
use frama_c_snapshot.Prelude.Run.{Run, ok, abort, fault, ◌>>=◌}
use frama_c_snapshot.Bittree.Block.{Block}
use frama_c_snapshot.Mmodel.Init.{checkbit, initialize_block, check_bytes, initialized_block}
use frama_c_snapshot.Mmodel.Init.Bitmap.{
  bit_at, bit_of_cell, count, count_full, count_none, get-of_lt,
}
use frama_c_snapshot.Mmodel.Init.Marking.{
  in_range, mark_bytes-Marked, init_at, IsTracked, start_cells,
}

-- all of the `size` bytes from `offset` on satisfy `f`
pub all_from : (ℕ → Bool) → ℕ → ℕ → Bool
all_from f offset zero = true
all_from f offset (suc size) = f offset && all_from f (offset + 1) size

-- The block that the marked array makes.
abbrev marked_block : Block → List ℕ → ℕ → Block
marked_block b cells n = record b {
  init_ptr = if n == b.size then none else some cells;
  init_bytes = n;
}

marked_block-IsTracked :
    (b : Block) (cells : List ℕ) (n : ℕ)
    → b.size ≤ 8 * length cells
    → n ≡ count (bit_at cells) b.size
    → IsTracked (marked_block b cells n)
marked_block-IsTracked b cells n long e = record {
  partly = λ some' part. let off : (n == b.size) ≡ false = ground arith in (cells, rw off, long, e);
}

init_at-marked_block :
    (b : Block) (cells : List ℕ) (n i : ℕ)
    → n ≡ count (bit_at cells) b.size
    → i < b.size
    → init_at (marked_block b cells n) i ≡ bit_at cells i
unfolding init_at
init_at-marked_block b cells n i e lt = elim (Bool-cases (n == 0)) [
  | inl z ↦ let q = count_none (bit_at cells) b.size i (ground arith) lt in rw (z, q)
  | inr z ↦ elim (Bool-cases (n == b.size)) [
    | inl f ↦ let q = count_full (bit_at cells) b.size i (ground arith) lt in rw (z, f, q)
    | inr f ↦ rw (z, f)
  ]
]

init_at-full : (b : Block) (i : ℕ) → 0 < b.size → b.init_bytes ≡ b.size → init_at b i ≡ true
unfolding init_at
init_at-full b i p e = ground arith

-- For a tracked block of less than 2^32 bytes that is not empty and bytes inside of it, `initialize`
-- returns, on whatever was initialized before: the block is tracked again, keeps its place, its size and its flags, and
-- a byte of it is initialized exactly if it was before or is one of those that were given.
pub initialize_block-marks :
    (b : Block) (offset size : ℕ)
    → IsTracked b
    → 0 < b.size
    → b.size < pow2 32
    → offset + size ≤ b.size
    → (b' : Block) × (initialize_block offset size b ≡ ok b')
      × IsTracked b'
      × ((b'.ptr ≡ b.ptr)
          × (b'.size ≡ b.size)
          × (b'.is_readonly ≡ b.is_readonly)
          × (b'.is_freeable ≡ b.is_freeable))
      × ((i : ℕ) → i < b.size → init_at b' i ≡ (in_range offset size i || init_at b i))
unfolding initialize_block
initialize_block-marks b offset size t p short fits = elim (Bool-cases (b.init_bytes == b.size)) [
  | inl full ↦
      let e : b.init_bytes ≡ b.size = ground arith in
      (b, rw full, t, (refl, refl, refl, refl), λ i lt. ground (arith, init_at-full b i p e))
  | inr part ↦
      let (cells, e, long, n, same) = start_cells b t (omega arith) (λ f. ground arith) in
      let ends : ltb size (pow2 32) ≡ true = ground arith in
      let m = mark_bytes-Marked b.size size offset cells b.init_bytes fits (omega arith) long n in
      (
        marked_block b m.cells' m.count',
        rw (part, e, ◌>>=◌, ends, m.ends),
        marked_block-IsTracked b m.cells' m.count' (omega (arith, m.long)) m.counted,
        (refl, refl, refl, refl),
        λ i lt.
            init_at-marked_block b m.cells' m.count' i m.counted lt
            ∙ m.marks i
            ∙ ap (λ (z : Bool). in_range offset size i || z) (same i),
      )
]

check_bytes-all_from :
    (cells : List ℕ) (offset size : ℕ)
    → offset + size ≤ 8 * length cells
    → offset + size ≤ pow2 32
    → check_bytes size offset cells ≡ ok (all_from (bit_at cells) offset size)
unfolding check_bytes all_from
check_bytes-all_from cells offset zero fits short = refl
check_bytes-all_from cells offset (suc size) fits short =
    let (cell, h) = get-of_lt cells (offset / 8) (omega arith) in
    let b = bit_of_cell cells offset h in
    let rest = check_bytes-all_from cells (offset + 1) size (omega arith) (omega arith) in
    let near : ltb (offset / 8) (pow2 31) ≡ true = ground arith in
    elim (Bool-cases (checkbit (offset % 8) cell == 0)) [
      | inl unset ↦
          let clear : bit_at cells offset ≡ false = ground arith in
          rw (near, h, check_bytes, unset, clear)
      | inr isset ↦
          let there : bit_at cells offset ≡ true = ground arith in
          rw (near, h, check_bytes, isset, rest, there)
    ]

all_from_same :
    (f g : ℕ → Bool) (offset size total : ℕ)
    → ((i : ℕ) → i < total → f i ≡ g i)
    → offset + size ≤ total
    → all_from f offset size ≡ all_from g offset size
unfolding all_from
all_from_same f g offset zero total h p = refl
all_from_same f g offset (suc size) total h p =
    rw (h offset (omega arith), all_from_same f g (offset + 1) size total h (omega arith))

all_from_constant : (c : Bool) (offset size : ℕ) → 0 < size → all_from (λ _. c) offset size ≡ c
unfolding all_from
all_from_constant c offset zero p = absurd (omega arith)
all_from_constant false offset (suc size) p = refl
all_from_constant true offset (suc zero) p = refl
all_from_constant true offset (suc (suc size)) p =
    all_from_constant true (offset + 1) (suc size) (omega arith)

init_at-none : (b : Block) (i : ℕ) → (b.init_bytes == 0) ≡ true → init_at b i ≡ false
unfolding init_at
init_at-none b i e = rw e

init_at-partly :
    (b : Block) (cells : List ℕ) (i : ℕ)
    → (b.init_bytes == 0) ≡ false
    → (b.init_bytes == b.size) ≡ false
    → b.init_ptr ≡ some cells
    → init_at b i ≡ bit_at cells i
unfolding init_at
init_at-partly b cells i e f q = rw (e, f, q)

initialized_block-check_bytes :
    (b : Block) (cells : List ℕ) (offset size : ℕ)
    → (b.init_bytes == 0) ≡ false
    → (b.init_bytes == b.size) ≡ false
    → b.init_ptr ≡ some cells
    → size < pow2 32
    → initialized_block offset size b ≡ check_bytes size offset cells
unfolding initialized_block
initialized_block-check_bytes b cells offset size e f q short =
    let least : min size (pow2 32) ≡ size = omega arith in
    let ends : ltb size (pow2 32) ≡ true = ground arith in
    rw (e, f, q, least, ends) (returned (check_bytes size offset cells))
  where
    returned : (r : Run Bool) → (r >>= λ all. if all && false then fault else ok all) ≡ r
    returned (ok true) = refl
    returned (ok false) = refl
    returned abort = refl
    returned fault = refl

-- For a tracked block of less than 2^32 bytes and at least one byte inside of it, `initialized`
-- returns, and tells whether
-- each of the bytes that it is asked for is initialized.
pub initialized_block-all_from :
    (b : Block) (offset size : ℕ)
    → IsTracked b
    → 0 < size
    → b.size < pow2 32
    → offset + size ≤ b.size
    → initialized_block offset size b ≡ ok (all_from (init_at b) offset size)
unfolding initialized_block
initialized_block-all_from b offset size t p short fits = elim (Bool-cases (b.init_bytes == 0)) [
  | inl e ↦
      rw
        (
          e,
          all_from_same (init_at b) (λ _. false) offset size (offset + size)
              (λ i _. init_at-none b i e) (omega arith),
        )
        (ap ok (sym (all_from_constant false offset size p)))
  | inr e ↦ elim (Bool-cases (b.init_bytes == b.size)) [
    | inl f ↦
        let full = λ (i : ℕ). init_at-full b i (omega arith) (ground arith) in
        rw
          (
            e,
            f,
            all_from_same (init_at b) (λ _. true) offset size (offset + size) (λ i _. full i)
                (omega arith),
          )
          (ap ok (sym (all_from_constant true offset size p)))
    | inr f ↦
        let (cells, q, long, n) = t.partly (λ z. ground arith) (λ z. ground arith) in
        initialized_block-check_bytes b cells offset size e f q (omega arith)
        ∙ check_bytes-all_from cells offset size (omega arith) (omega arith)
        ∙ ap ok (
            all_from_same (bit_at cells) (init_at b) offset size b.size
              (λ i _. sym (init_at-partly b cells i e f q)) fits)
  ]
]

all_from-true :
    (f : ℕ → Bool) (offset size : ℕ)
    → ((i : ℕ) → in_range offset size i ≡ true → f i ≡ true)
    → all_from f offset size ≡ true
unfolding all_from
all_from-true f offset zero h = refl
all_from-true f offset (suc size) h =
    rw (h offset (ground arith), all_from-true f (offset + 1) size (λ i e. h i (ground arith)))

-- For a tracked block of less than 2^32 bytes and bytes inside of it, `initialize` returns, and
-- `initialized` then returns true for any part of those bytes that is not empty.
pub initialize-initialized :
    (b : Block) (offset size from part : ℕ)
    → IsTracked b
    → b.size < pow2 32
    → offset + size ≤ b.size
    → 0 < part
    → offset ≤ from
    → from + part ≤ offset + size
    → (b' : Block) × (initialize_block offset size b ≡ ok b')
      × (initialized_block from part b' ≡ ok true)
initialize-initialized b offset size from part t short fits p lo hi =
    let (b', e, t', same, marks) =
      initialize_block-marks b offset size t (omega arith) short fits in
    (
      b',
      e,
      initialized_block-all_from b' from part t' p (omega (arith, same.1)) (omega (arith, same.1))
          ∙ ap ok (
              all_from-true (init_at b') from part (λ i r.
                let wide : in_range offset size i ≡ true = ground arith in
                marks i (ground arith) ∙ ap (λ (z : Bool). z || init_at b i) wide)),
    )
