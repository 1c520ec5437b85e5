-- ===== src/Checked/Calls/Safe.antt =====
-- What it means that the checks of e_acsl_libc_replacements.h pass.
use frama_c_snapshot.Prelude.{
  ℕ, ◌+◌, ◌-◌, ◌*◌, ◌/◌, ◌<◌, ◌≤◌, ◌≡◌, ◌↔◌, refl, sym, ◌∙◌, arith, inl, inr, true, false, Bool,
  ◌&&◌, leb, Bool-cases, none, some, Option, if◌then◌else◌,
}
use frama_c_snapshot.Prelude.Bits.{pow2}
use frama_c_snapshot.Prelude.Run.{ok, abort, ◌>>=◌}
use frama_c_snapshot.Bittree.Tables.{WordBits}
use frama_c_snapshot.Mmodel.Memory
use frama_c_snapshot.Segment.Words.{Bytes}
use frama_c_snapshot.Segment.Static.{sub_word}
use frama_c_snapshot.Segment.Heap
use frama_c_snapshot.Segment.Heap.Blocks.{IsPlace, heap_after, malloc_lem, heap_after-IsTracked}
use frama_c_snapshot.Segment.Heap.Tracks.{heap_allocated-IsTracked}
use frama_c_snapshot.Segment.Layout.{is_on_global}
use frama_c_snapshot.Segment.Mmodel
use frama_c_snapshot.Checked.Spaces
use frama_c_snapshot.Checked.Spaces.Strings.{IsFirst, scan-IsFirst, IsFirst-scan}
use frama_c_snapshot.Checked.Calls.{builtin_strlen, builtin_memset}

scan_run :
    (o : Option ℕ) (i size : ℕ)
    → ((elim (Spaces.verdict none size o) [ Spaces.measured n ↦ ok n | _ ↦ abort ]) ≡ ok i)
      ↔ (o ≡ some i)
unfolding Spaces.verdict
scan_run none i size = ((λ h. absurd (ground arith)), λ h. absurd (ground arith))
scan_run (some j) i size = ((λ h. ground arith), λ h. ground arith)

-- Where the memory model has a block of `len` bytes around an address, `off` bytes behind its start,
-- `strlen` with its checks returns exactly the place of the first zero byte, when one is in the rest
-- of the block.
pub builtin_strlen-IsFirst :
    (t : Spaces.Tracking) (m : Bytes) (s len off i : ℕ)
    → t.allocated s 1 s ≡ ok true
    → t.block_length s ≡ ok len
    → t.offset s ≡ ok off
    → off ≤ len
    → len < pow2 64
    → (builtin_strlen t m s ≡ ok i) ↔ IsFirst (λ k. m (s + k)) (len - off) 0 i
unfolding builtin_strlen Spaces.validate_allocated_string Spaces.validate_string
    Spaces.valid_nstring Spaces.valid_elements Spaces.at_bound sub_word
builtin_strlen-IsFirst t m s len off i alc l o lo top =
    let room : sub_word len off / 1 ≡ len - off = omega arith in
    let element = λ (k : ℕ). m (s + k) in
    let run = scan_run (Spaces.scan element none (len - off) 0) i (len - off) in
    rw (alc, l, o, room)
      (
        (λ h. scan-IsFirst element (len - off) 0 i (run.0 h)),
        λ h. run.1 (IsFirst-scan element (len - off) 0 i h),
      )

-- the shadow memory model behind the interface
abbrev pub segment_tracking : Mmodel.Segments → Spaces.Tracking
segment_tracking m = record {
  allocated = λ addr size base_ptr. ok (Mmodel.allocated addr size base_ptr m);
  readonly = λ addr. ok (Mmodel.readonly addr m);
  writeable = λ addr size base_ptr. ok (Mmodel.writeable addr size base_ptr m);
  block_length = λ addr. Mmodel.block_length addr m;
  offset = λ addr. Mmodel.offset addr m;
}

-- the memory model over the trie behind the interface
abbrev pub bittree_tracking : WordBits → Memory.Memory → Spaces.Tracking
bittree_tracking w s = record {
  allocated = λ addr size base_ptr. Memory.allocated w addr size base_ptr s;
  readonly = λ addr. Memory.readonly w addr s;
  writeable = λ addr size base_ptr. Memory.writeable w addr size base_ptr s;
  block_length = λ addr. Memory.block_length w addr s;
  offset = λ addr. Memory.offset w addr s;
}

new_block_on_heap :
    (size res k : ℕ) (m : Mmodel.Segments)
    → m.dynamic.heap_start ≤ res + k
    → res + k ≤ m.dynamic.heap_end
    → Mmodel.try_segment (res + k) (record m { dynamic = heap_after size res m.dynamic })
      ≡ Mmodel.on_heap
unfolding Mmodel.try_segment Heap.add_allocation
new_block_on_heap size res k m lo hi =
    let low : leb m.dynamic.heap_start (res + k) ≡ true = ground arith in
    let high : leb (res + k) m.dynamic.heap_end ≡ true = ground arith in rw (low, high) refl

and_true : (b : Bool) (k size : ℕ) → ((b ≡ true) ↔ (k ≤ size)) → (b && true) ≡ leb k size
and_true true k size iff = let p = iff.0 refl in ground arith
and_true false k size iff = elim (Bool-cases (leb k size)) [
  | inl e ↦ iff.1 (ground arith) ∙ sym e
  | inr e ↦ sym e
]

on_new_block :
    (size res least k n : ℕ) (m : Mmodel.Segments)
    → IsPlace size res least m.dynamic
    → k < (size + 31) / 32 * 32
    → is_on_global (res + k) m.layout ≡ false
    → k + n < pow2 64
    → Mmodel.writeable (res + k) n (res + k) (record m { dynamic = heap_after size res m.dynamic })
      ≡ leb (k + n) size
unfolding Mmodel.writeable Mmodel.allocated Mmodel.readonly
on_new_block size res least k n m place p g room =
    let (pos, small, nonnull, aligned, lo, hi, top, same) = place in
    let h = heap_after size res m.dynamic in
    let t = heap_after-IsTracked size res m.dynamic (omega arith) (omega arith) in
    let iff =
      heap_allocated-IsTracked res size ((size + 31) / 32) k n k h t aligned nonnull p p
        (omega arith) room in
    let seg = new_block_on_heap size res k m (omega arith) (omega arith) in
    rw (Mmodel.allocated, seg, g)
      (and_true (Heap.heap_allocated (res + k) n (res + k) h) (k + n) size iff)

-- After `malloc` of a block of at most 2^31 bytes of the shadow memory model, `memset` with its
-- checks runs on a region that starts in the block, or in its padding, exactly when the region ends
-- inside of the block, and aborts otherwise.
pub builtin_memset-malloc {ℓ} :
    {A : Type ℓ} (size res least k n : ℕ) (m : Mmodel.Segments) (bytes : Bytes) (call : A)
    → IsPlace size res least m.dynamic
    → k < (size + 31) / 32 * 32
    → is_on_global (res + k) m.layout ≡ false
    → k + n < pow2 64
    → (Heap.malloc size res least m.dynamic >>= λ r.
        builtin_memset (segment_tracking (record m { dynamic = r.1 })) bytes call (r.0 + k) n)
      ≡ (if leb (k + n) size then ok call else abort)
unfolding builtin_memset Spaces.validate_writeable_space
builtin_memset-malloc size res least k n m bytes call place p g room =
    let w = on_new_block size res least k n m place p g room in
    elim (Bool-cases (leb (k + n) size)) [
      | inl e ↦ rw (malloc_lem size res least m.dynamic place, w, e) refl
      | inr e ↦ rw (malloc_lem size res least m.dynamic place, w, e) refl
    ]
