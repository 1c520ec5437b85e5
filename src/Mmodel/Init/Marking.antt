-- ===== src/Mmodel/Init/Marking.antt =====
-- `initialize` marks exactly the bytes that it is given, and `initialized` reads the marks.
use frama_c_snapshot.Prelude.{
  ℕ, zero, suc, ◌+◌, ◌*◌, ◌/◌, ◌%◌, ◌≤◌, ◌≡◌, ◌≢◌, refl, ◌∙◌, Bool, true, false, ◌||◌, ◌&&◌, none,
  some, List, arith, ◌==◌, leb, ltb, if◌then◌else◌, inl, inr, Bool-cases, set, length, replicate,
  length-set, length-replicate,
}
use frama_c_snapshot.Prelude.Bits.{pow2}
use frama_c_snapshot.Prelude.Run.{Run, ok}
use frama_c_snapshot.Bittree.Block.{Block}
use frama_c_snapshot.Mmodel.Init.{checkbit, setbit, needed_bytes, mark_bytes, init_cells}
use frama_c_snapshot.Mmodel.Init.Bitmap.{
  bit_at, bit_of_cell, count, count_mark, count_zero_cells, bit_at-set, get-of_lt, bit_at-zeros,
}

-- `offset <= i < offset + size`
abbrev pub in_range : ℕ → ℕ → ℕ → Bool
in_range offset size i = leb offset i && ltb i (offset + size)

-- What the loop of `initialize` makes of an array for `total` bytes.
pub record Marked (total offset size : ℕ) (cells : List ℕ) (result : Run (List ℕ × ℕ))
    : Type 0 where
  pub cells' : List ℕ
  pub count' : ℕ
  pub ends : result ≡ ok (cells', count')
  pub long : length cells' ≡ length cells
  pub counted : count' ≡ count (bit_at cells') total
  pub marks : (i : ℕ) → bit_at cells' i ≡ (in_range offset size i || bit_at cells i)

pub mark_bytes-Marked :
    (total size offset : ℕ) (cells : List ℕ) (n : ℕ)
    → offset + size ≤ total
    → total ≤ pow2 32
    → total ≤ 8 * length cells
    → n ≡ count (bit_at cells) total
    → Marked total offset size cells (mark_bytes size offset cells n)
unfolding mark_bytes
mark_bytes-Marked total zero offset cells n fits short long e = record {
  cells' = cells;
  count' = n;
  ends = refl;
  long = refl;
  counted = e;
  marks = λ i. ground arith;
}
mark_bytes-Marked total (suc size) offset cells n fits short long e =
    let (cell, h) = get-of_lt cells (offset / 8) (omega arith) in
    let b = bit_of_cell cells offset h in
    let near : ltb (offset / 8) (pow2 31) ≡ true = ground arith in
    elim (Bool-cases (checkbit (offset % 8) cell == 0)) [
      | inl unset ↦
          let cells'' = set cells (offset / 8) (setbit (offset % 8) cell) in
          let clear : bit_at cells offset ≡ false = ground arith in
          let at = λ (i : ℕ). bit_at-set cells i offset cell h in
          let more =
            count_mark (bit_at cells) (bit_at cells'') total offset (omega arith) clear at in
          let same = length-set cells (offset / 8) (setbit (offset % 8) cell) in
          let m =
            mark_bytes-Marked total size (offset + 1) cells'' (n + 1) (omega arith) short
              (omega arith) (omega arith) in
          rw (near, h, mark_bytes, unset)
            (record {
              cells' = m.cells';
              count' = m.count';
              ends = m.ends;
              long = m.long ∙ same;
              counted = m.counted;
              marks = λ i. ground (arith, m.marks i, at i);
            })
      | inr isset ↦
          let there : bit_at cells offset ≡ true = ground arith in
          let m = mark_bytes-Marked total size (offset + 1) cells n (omega arith) short long e in
          rw (near, h, mark_bytes, isset)
            (record {
              cells' = m.cells';
              count' = m.count';
              ends = m.ends;
              long = m.long;
              counted = m.counted;
              marks = λ i. ground (arith, m.marks i);
            })
    ]

-- whether a byte of a block is initialized
unfoldable pub init_at : Block → ℕ → Bool
init_at b i =
    if b.init_bytes == 0
    then false
    else if b.init_bytes == b.size
    then true
    else elim b.init_ptr [ none ↦ false | some cells ↦ bit_at cells i ]

-- A block that is initialized in part has an array with a bit for each of its bytes, and its count
-- is that of the bits that are set.
pub record IsTracked (b : Block) : Type 0 where
  pub partly :
      b.init_bytes ≢ 0
      → b.init_bytes ≢ b.size
      → (cells : List ℕ) × (b.init_ptr ≡ some cells)
        × (b.size ≤ 8 * length cells)
        × (b.init_bytes ≡ count (bit_at cells) b.size)

-- the array that the loop starts from
pub start_cells :
    (b : Block)
    → IsTracked b
    → b.size ≤ pow2 32
    → b.init_bytes ≢ b.size
    → (cells : List ℕ) × (init_cells b ≡ ok cells)
      × (b.size ≤ 8 * length cells)
      × (b.init_bytes ≡ count (bit_at cells) b.size)
      × ((i : ℕ) → bit_at cells i ≡ init_at b i)
unfolding init_at
start_cells b t short part = elim (Bool-cases (b.init_bytes == 0)) [
  | inl e ↦
      let zeros : List ℕ = replicate (needed_bytes b.size) 0 in
      let long : length zeros ≡ needed_bytes b.size = length-replicate (needed_bytes b.size) 0 in
      let z =
        count_zero_cells (bit_at zeros) b.size (λ i p. bit_at-zeros (needed_bytes b.size) i) in
      (
        zeros,
        (let few : ltb (needed_bytes b.size) (pow2 31) ≡ true = ground arith in rw (e, few) refl),
        ground arith,
        ground arith,
        λ i. bit_at-zeros (needed_bytes b.size) i ∙ rw (e, init_at),
      )
  | inr e ↦
      let (cells, p, q, r) = t.partly (λ f. ground arith) part in
      let off : (b.init_bytes == b.size) ≡ false = ground arith in
      (cells, rw (e, p), q, r, λ i. rw (e, off, p))
]
