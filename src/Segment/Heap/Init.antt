-- ===== src/Segment/Heap/Init.antt =====
-- Which bytes of the heap `initialize_heap_region` of e_acsl_segment_tracking.h marks.
use frama_c_snapshot.Prelude.{
  ℕ, ◌+◌, ◌-◌, ◌*◌, ◌/◌, ◌%◌, ◌<◌, ◌≤◌, ◌≡◌, refl, ◌∙◌, arith, inl, inr, ◌==◌, true, false, Bool,
  ◌&&◌, leb, ltb, Bool-cases, ==_iff, if◌then◌else◌, bit_or, max, min,
}
use frama_c_snapshot.Prelude.Bits.{pow2, shr, digit-bit_or}
use frama_c_snapshot.Mmodel.Bits.{low_ones}
use frama_c_snapshot.Segment.Words.{Bytes, update}
use frama_c_snapshot.Segment.Bits.{bit}
use frama_c_snapshot.Segment.Bits.Marks.{
  within, digit_low, digit_shifted, bit_le_one, below, set_bits_lem, digit-low_ones,
}
use frama_c_snapshot.Segment.Heap

-- whether the bit `b` is one of `set` from the bit `skip` of the byte `place` on
abbrev marked : ℕ → ℕ → ℕ → ℕ → ℕ
marked place skip set b =
    if leb (8 * place + skip) b && ltb b (8 * place + skip + set) then 1 else 0

skip_digit :
    (set number skip j : ℕ)
    → set ≤ 8
    → j < 8
    → shr (Heap.set_bits_skip set number skip) j % 2
      ≡ max (shr number j % 2) (if leb skip j then below (j - skip) set else 0)
unfolding Heap.set_bits_skip
skip_digit set number skip j p q =
    rw
      (
        digit_low (bit_or number (low_ones set * pow2 skip)) j q,
        digit-bit_or number (low_ones set * pow2 skip) j,
        digit_shifted (low_ones set) skip j,
        digit-low_ones set (j - skip) (omega arith),
      )
      refl

first_byte :
    (set place skip b : ℕ) (m : Bytes)
    → skip + set ≤ 8
    → bit b (update m place (Heap.set_bits_skip set (m place) skip))
      ≡ max (bit b m) (marked place skip set b)
unfolding bit
first_byte set place skip b m p = elim (Bool-cases (b / 8 == place)) [
  | inl e ↦
      let at : b / 8 ≡ place = (==_iff (b / 8) place).0 e in
      let here : (place == place) ≡ true = ground arith in
      let same : (if leb skip (b % 8) then below (b % 8 - skip) set else 0)
          ≡ marked place skip set b =
        ground arith in
      rw (at, here, skip_digit set (m place) skip (b % 8) (omega arith) (omega arith), same) refl
  | inr e ↦ let none : marked place skip set b ≡ 0 = ground arith in rw (e, none) (omega arith)
]

-- the initialization bit of the byte at `addr`
abbrev pub init_bit : ℕ → Heap.Heap → ℕ
init_bit addr h = bit (addr - h.heap_start) h.init_shadow

max_mark : (old : ℕ) (t : Bool) → old ≤ 1 → max old (if t then 1 else 0) ≡ (if t then 1 else old)
max_mark old true p = omega arith
max_mark old false p = omega arith

-- `initialize_heap_region` of a region of the heap sets the initialization bits of the bytes of the
-- region, and of no other.
pub initialize_heap_region-init_bit :
    (addr len x : ℕ) (h : Heap.Heap)
    → h.heap_start ≤ addr
    → h.heap_start ≤ x
    → init_bit x (Heap.initialize_heap_region addr len h)
      ≡ (if leb addr x && ltb x (addr + len) then 1 else init_bit x h)
unfolding Heap.initialize_heap_region
initialize_heap_region-init_bit addr len x h p q =
    let b = x - h.heap_start in
    let place = (addr - h.heap_start) / 8 in
    let skip = (addr - h.heap_start) % 8 in
    let set = min len (8 - skip) in
    let test = leb addr x && ltb x (addr + len) in
    let mark = max_mark (bit b h.init_shadow) test (bit_le_one b h.init_shadow) in
    elim (Bool-cases (skip == 0)) [
      | inl z ↦ elim (Bool-cases (len == 0)) [
        | inl n ↦
            let none : (leb addr x && ltb x (addr + len)) ≡ false = ground arith in
            rw (z, n, none) refl
        | inr n ↦
            let same : within place len b ≡ (if test then 1 else 0) = ground arith in
            rw (z, n) (set_bits_lem len place b h.init_shadow ∙ rw same mark)
      ]
      | inr z ↦
          let first = first_byte set place skip b h.init_shadow (omega arith) in
          elim (Bool-cases (len - set == 0)) [
            | inl n ↦
                let same : marked place skip set b ≡ (if test then 1 else 0) = ground arith in
                rw (z, n) (first ∙ rw same mark)
            | inr n ↦
                let m =
                  update h.init_shadow place (Heap.set_bits_skip set (h.init_shadow place) skip) in
                let join : max (marked place skip set b) (within (place + 1) (len - set) b)
                    ≡ (if test then 1 else 0) =
                  ground arith in
                let three : max (max (bit b h.init_shadow) (marked place skip set b))
                      (within (place + 1) (len - set) b)
                    ≡ max (bit b h.init_shadow)
                        (max (marked place skip set b) (within (place + 1) (len - set) b)) =
                  omega arith in
                rw (z, n) (set_bits_lem (len - set) (place + 1) b m ∙ rw (first, three, join) mark)
          ]
    ]
