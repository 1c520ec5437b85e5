-- ===== src/Segment/Heap/Tracks.antt =====
-- What `set_heap_segment` of e_acsl_segment_tracking.h writes, and what the queries read of it.
use frama_c_snapshot.Prelude.{
  ℕ, zero, suc, ◌+◌, ◌-◌, ◌*◌, ◌/◌, ◌%◌, ◌<◌, ◌≤◌, ◌≡◌, ◌↔◌, refl, ◌∙◌, arith, ◌==◌, true, false,
  leb,
}
use frama_c_snapshot.Prelude.Bits.{pow2}
use frama_c_snapshot.Segment.Words.{
  Bytes, Outside, store, load, store-Outside, load_same, load-store_64,
}
use frama_c_snapshot.Segment.Static.{sub_word, base, offset, length}
use frama_c_snapshot.Segment.Heap

-- a byte that the words of the segments do not take
pub set_segments_same :
    (n ptr i x : ℕ) (m : Bytes)
    → ((j : ℕ) → i ≤ j → j < i + n → Outside (ptr + j * 32) 8 x)
    → Heap.set_segments n ptr i m x ≡ m x
unfolding Heap.set_segments
set_segments_same zero ptr i x m o = refl
set_segments_same (suc n) ptr i x m o =
    set_segments_same n ptr (i + 1) x (store 8 (ptr + i * 32) ptr m)
      (λ j p q. o j (omega arith) (omega arith))
    ∙ store-Outside 8 (ptr + i * 32) ptr x m (o i (omega arith) (omega arith))

pub set_segments-load :
    (n ptr i j : ℕ) (m : Bytes)
    → j < n
    → ptr < pow2 64
    → load 8 (ptr + (i + j) * 32) (Heap.set_segments n ptr i m) ≡ ptr
unfolding Heap.set_segments
set_segments-load zero ptr i j m p b = absurd (omega arith)
set_segments-load (suc n) ptr i zero m p b =
    let z : i + 0 ≡ i = omega arith in
    rw z (
      load_same 8 (ptr + i * 32) (Heap.set_segments (suc n) ptr i m) (store 8 (ptr + i * 32) ptr m)
        (λ k q.
          set_segments_same n ptr (i + 1) (ptr + i * 32 + k) (store 8 (ptr + i * 32) ptr m)
            (λ l r t. omega arith))
      ∙ load-store_64 (ptr + i * 32) ptr m b)
set_segments-load (suc n) ptr i (suc j) m p b =
    let z : i + suc j ≡ i + 1 + j = omega arith in
    rw z (set_segments-load n ptr (i + 1) j (store 8 (ptr + i * 32) ptr m) (omega arith) b)

-- the words of a block of `segments` segments
abbrev pub IsTracked : ℕ → ℕ → ℕ → Heap.Heap → Type 0
IsTracked ptr size segments h =
    ((j : ℕ) → j < segments → load 8 (ptr + j * 32) h.shadow ≡ ptr)
    × (load 8 (ptr + 8) h.shadow ≡ size)

pub set_segments-IsTracked :
    (n ptr size : ℕ) (m : Bytes)
    → ptr < pow2 64
    → size < pow2 64
    → ((j : ℕ)
        → j < n
        → load 8 (ptr + j * 32) (Heap.set_segments n ptr 0 (store 8 (ptr + 8) size m)) ≡ ptr)
      × (load 8 (ptr + 8) (Heap.set_segments n ptr 0 (store 8 (ptr + 8) size m)) ≡ size)
set_segments-IsTracked n ptr size m p q = (
  (λ j r.
      let z : 0 + j ≡ j = omega arith in
      rw z at (set_segments-load n ptr 0 j (store 8 (ptr + 8) size m) r p)),
  load_same 8 (ptr + 8) (Heap.set_segments n ptr 0 (store 8 (ptr + 8) size m))
        (store 8 (ptr + 8) size m)
        (λ k r.
          set_segments_same n ptr 0 (ptr + 8 + k) (store 8 (ptr + 8) size m) (λ l u v. omega arith))
      ∙ load-store_64 (ptr + 8) size m q,
)

-- the segments and the length stay inside of the block
pub set_segments-Outside :
    (n ptr size x : ℕ) (m : Bytes)
    → 0 < n
    → Outside ptr (n * 32) x
    → Heap.set_segments n ptr 0 (store 8 (ptr + 8) size m) x ≡ m x
set_segments-Outside n ptr size x m p o =
    set_segments_same n ptr 0 x (store 8 (ptr + 8) size m) (λ l u v. omega arith)
    ∙ store-Outside 8 (ptr + 8) size x m (omega arith)

pub aligned_shadow-IsTracked :
    (ptr size segments k : ℕ) (h : Heap.Heap)
    → IsTracked ptr size segments h
    → ptr % 32 ≡ 0
    → k < segments * 32
    → Heap.aligned_shadow (ptr + k) h ≡ ptr
unfolding Heap.aligned_shadow
aligned_shadow-IsTracked ptr size segments k h (each, len) a p =
    let at : ptr + k - (ptr + k) % 32 ≡ ptr + k / 32 * 32 = omega arith in
    rw at (each (k / 32) (omega arith))

sub_word-add : (a k : ℕ) → a + k < pow2 64 → sub_word (a + k) a ≡ k
unfolding sub_word
sub_word-add a k p = omega arith

pub heap_info-IsTracked :
    (ptr size segments k : ℕ) (h : Heap.Heap)
    → IsTracked ptr size segments h
    → ptr % 32 ≡ 0
    → k < segments * 32
    → ptr + k < pow2 64
    → (Heap.heap_info (ptr + k) base h ≡ ptr)
      × (Heap.heap_info (ptr + k) offset h ≡ k)
      × (Heap.heap_info (ptr + k) length h ≡ size)
unfolding Heap.heap_info
heap_info-IsTracked ptr size segments k h t a p q =
    let start = aligned_shadow-IsTracked ptr size segments k h t a p in
    rw start (refl, sub_word-add ptr k q, t.1)

pub heap_allocated-IsTracked :
    (ptr size segments k n j : ℕ) (h : Heap.Heap)
    → IsTracked ptr size segments h
    → ptr % 32 ≡ 0
    → 0 < ptr
    → k < segments * 32
    → j < segments * 32
    → ptr + k < pow2 64
    → k + n < pow2 64
    → (Heap.heap_allocated (ptr + k) n (ptr + j) h ≡ true) ↔ (k + n ≤ size)
unfolding Heap.heap_allocated
heap_allocated-IsTracked ptr size segments k n j h t a pos p q top room =
    let start = aligned_shadow-IsTracked ptr size segments k h t a p in
    let start' = aligned_shadow-IsTracked ptr size segments j h t a q in
    let away = sub_word-add ptr k top in
    let small : (k + n) % pow2 64 ≡ k + n = omega arith in
    let nonzero : (ptr == 0) ≡ false = ground arith in
    let same : (ptr == ptr) ≡ true = ground arith in
    rw (start, start', nonzero, same, away, small, t.1) (ground arith)

pub freeable-IsTracked :
    (ptr size segments k : ℕ) (h : Heap.Heap)
    → IsTracked ptr size segments h
    → ptr % 32 ≡ 0
    → 0 < ptr
    → k < segments * 32
    → h.heap_start ≤ ptr
    → ptr + k ≤ h.heap_end
    → (Heap.freeable (ptr + k) h ≡ true) ↔ (k ≡ 0)
unfolding Heap.freeable
freeable-IsTracked ptr size segments k h t a pos p lo hi =
    let start = aligned_shadow-IsTracked ptr size segments k h t a p in
    let nonzero : (ptr == 0) ≡ false = ground arith in
    let low : leb h.heap_start (ptr + k) ≡ true = ground arith in
    let high : leb (ptr + k) h.heap_end ≡ true = ground arith in
    rw (start, nonzero, low, high) (ground arith)
