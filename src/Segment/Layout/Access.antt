-- ===== src/Segment/Layout/Access.antt =====
-- Where the shadow of an address is, in segment_model/e_acsl_shadow_layout.h.
use frama_c_snapshot.Prelude.{
  ℕ, ◌+◌, ◌-◌, ◌*◌, ◌/◌, ◌%◌, ◌<◌, ◌≤◌, ◌≡◌, arith, ltb, if◌then◌else◌, inl, inr, Bool-cases,
}
use frama_c_snapshot.Prelude.Bits.{pow2}
use frama_c_snapshot.Segment.Static.{sub_word}
use frama_c_snapshot.Segment.Layout

-- A shadow segment at `start` does not wrap around.
abbrev pub Fits : ℕ → ℕ → Type 0
Fits start size = start + size < pow2 64

shadow_offset_lem :
    (start size primary addr : ℕ)
    → start ≤ addr
    → addr < start + size
    → Fits start size
    → Fits primary size
    → Layout.shadow_access addr (sub_word start primary) ≡ primary + (addr - start)
unfolding Layout.shadow_access sub_word
shadow_offset_lem start size primary addr lo hi fits fits' = omega arith

-- For each address of a segment that, like its shadow segments, does not wrap around, the primary
-- shadow is at the same distance from the start of the primary segment, inside of it, and with the
-- ratio 8 the init shadow is at an eighth of the distance, inside of the secondary segment when the
-- size is a multiple of 8.
pub set_partition-Inside :
    (start size primary secondary addr : ℕ)
    → Fits start size
    → Fits primary size
    → Fits secondary size
    → size % 8 ≡ 0
    → start ≤ addr
    → addr < start + size
    → (let p = Layout.set_partition start size 8 primary secondary in
        (Layout.shadow_access addr p.primary.shadow_offset ≡ p.primary.start + (addr - start))
        × (p.primary.start + (addr - start) < p.primary.end)
        × (Layout.scaled_shadow_access addr start p.secondary.shadow_offset p.secondary.shadow_ratio
            ≡ p.secondary.start + (addr - start) / 8)
        × (p.secondary.start + (addr - start) / 8 < p.secondary.end))
unfolding Layout.set_partition Layout.set_application_segment Layout.set_shadow_segment
    Layout.scaled_shadow_access sub_word
set_partition-Inside start size primary secondary addr fits fits' fits'' eight lo hi =
    let one : size / 1 ≡ size = omega arith in
    (
      shadow_offset_lem start size primary addr lo hi fits fits',
      rw one (omega arith),
      omega arith,
      omega arith,
    )

greater_bounds : (a b : ℕ) → (a ≤ Layout.greater a b) × (b ≤ Layout.greater a b)
greater_bounds a b = elim (Bool-cases (ltb b a)) [
  | inl e ↦ rw e (ground arith)
  | inr e ↦ rw e (ground arith)
]

greater_below : (a b top : ℕ) → a < top → b < top → Layout.greater a b < top
greater_below a b top p q = elim (Bool-cases (ltb b a)) [ inl e ↦ rw e p | inr e ↦ rw e q ]

-- `get_tls_start` leaves room for two shadow stacks above the heap and above each shadow segment of
-- the heap and of the globals, when that room is inside of the address space.
pub get_tls_start-above :
    (tdata tbss tls_size stack_size room : ℕ) (l : Layout.MemoryLayout)
    → room + 2 * stack_size + 1 ≤ pow2 64
    → l.heap.application.end < room
    → l.heap.primary.end < room
    → l.heap.secondary.end < room
    → l.global.primary.end < room
    → l.global.secondary.end < room
    → (let start = Layout.get_tls_start tdata tbss tls_size stack_size l in
        (l.heap.application.end + 2 * stack_size < start)
        × (l.heap.primary.end + 2 * stack_size < start)
        × (l.heap.secondary.end + 2 * stack_size < start)
        × (l.global.primary.end + 2 * stack_size < start)
        × (l.global.secondary.end + 2 * stack_size < start))
unfolding Layout.get_tls_start
get_tls_start-above tdata tbss tls_size stack_size room l top ha hp hs gp gs =
    let one = Layout.greater l.heap.secondary.end l.heap.primary.end in
    let two = Layout.greater l.global.primary.end one in
    let three = Layout.greater l.global.secondary.end two in
    let used = Layout.greater l.heap.application.end three in
    let (a, b) = greater_bounds l.heap.secondary.end l.heap.primary.end in
    let (c, d) = greater_bounds l.global.primary.end one in
    let (e, f) = greater_bounds l.global.secondary.end two in
    let (g, h) = greater_bounds l.heap.application.end three in
    let below : used < room = greater_below l.heap.application.end three room ha (
      greater_below l.global.secondary.end two room gs (
        greater_below l.global.primary.end one room gp
          (greater_below l.heap.secondary.end l.heap.primary.end room hs hp))) in
    let max_shadow = (used + 2 * stack_size + 1) % pow2 64 in
    let half = sub_word (if ltb tbss tdata then tbss else tdata) (tls_size / 2) in
    let wrap : max_shadow ≡ used + 2 * stack_size + 1 = omega arith in
    let (i, j) = greater_bounds half max_shadow in
    (omega arith, omega arith, omega arith, omega arith, omega arith)
