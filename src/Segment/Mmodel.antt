-- ===== src/Segment/Mmodel.antt =====
-- The memory model of segment_model/e_acsl_segment_mmodel.c over the shadow memory of the heap and
-- of the static segments, with the queries on any address of e_acsl_segment_tracking.h. Builds
-- without debug and temporal checks.
pub mod Dispatch
use frama_c_snapshot.Prelude.{
  ℕ, ◌+◌, ◌*◌, ◌%◌, Bool, true, false, ◌&&◌, ◌||◌, not, ◌==◌, leb, if◌then◌else◌, List, [], ◌∷◌,
}
use frama_c_snapshot.Prelude.Run.{Run, ok, abort, ◌>>=◌, ◌>>◌, vassert}
use frama_c_snapshot.Mmodel.Alloc.{powof2}
use frama_c_snapshot.Segment.Static
use frama_c_snapshot.Segment.Heap
use frama_c_snapshot.Segment.Layout.{MemoryLayout, is_on_global, is_on_static}

pub record Segments : Type 0 where
  pub layout : MemoryLayout
  pub statics : Static.Shadows
  pub dynamic : Heap.Heap

-- The segment of an address. The bounds of the heap are those of `mem_spaces`, which
-- `set_application_segment` gives to the layout.
pub data Segment : Type 0 where
  on_heap on_static elsewhere : Segment

-- the tests of `TRY_SEGMENT_WEAK` and `TRY_SEGMENT`
unfoldable pub try_segment : ℕ → Segments → Segment
try_segment addr m =
    if Heap.is_on_heap addr m.dynamic
    then on_heap
    else if is_on_static addr m.layout
    then on_static
    else elsewhere

unfoldable pub predicate : ℕ → Static.Query → Segments → Run ℕ
unfolding try_segment Heap.heap_info Static.static_info
predicate addr p m = elim (try_segment addr m) [
  | on_heap ↦ ok (Heap.heap_info addr p m.dynamic)
  | on_static ↦ ok (Static.static_info addr p m.statics)
  | elsewhere ↦ abort
]

unfoldable pub allocated : ℕ → ℕ → ℕ → Segments → Bool
unfolding try_segment Heap.heap_allocated Static.static_allocated
allocated addr size base m = elim (try_segment addr m) [
  | on_heap ↦ Heap.heap_allocated addr size base m.dynamic
  | on_static ↦ Static.static_allocated addr size base m.statics
  | elsewhere ↦ false
]

unfoldable pub readonly : ℕ → Segments → Bool
unfolding Static.global_readonly
readonly ptr m = is_on_global ptr m.layout && Static.global_readonly ptr m.statics

unfoldable pub writeable : ℕ → ℕ → ℕ → Segments → Bool
unfolding allocated readonly
writeable addr size base_ptr m = allocated addr size base_ptr m && not (readonly addr m)

-- `store_block` records blocks of the static segments
unfoldable pub store_block : ℕ → ℕ → Segments → Segments
unfolding Static.shadow_alloca
store_block ptr size m = record m { statics = Static.shadow_alloca ptr size m.statics }

unfoldable pub delete_block : ℕ → Segments → Segments
unfolding Static.shadow_freea
delete_block ptr m = record m { statics = Static.shadow_freea ptr m.statics }

unfoldable pub store_block_duplicate : ℕ → ℕ → Segments → Segments
unfolding allocated delete_block store_block
store_block_duplicate ptr size m =
    let m' = if allocated ptr size ptr m then delete_block ptr m else m in store_block ptr size m'

unfoldable pub initialize : ℕ → ℕ → Segments → Run Segments
unfolding try_segment Heap.initialize_heap_region Static.initialize_static_region
initialize ptr n m = elim (try_segment ptr m) [
  | on_heap ↦ ok (record m { dynamic = Heap.initialize_heap_region ptr n m.dynamic })
  | on_static ↦ ok (record m { statics = Static.initialize_static_region ptr n m.statics })
  | elsewhere ↦ abort
]

unfoldable pub full_init : ℕ → Segments → Run Segments
unfolding initialize predicate
full_init ptr m = predicate ptr Static.length m >>= λ size. initialize ptr size m

unfoldable pub mark_readonly : ℕ → Segments → Run Segments
unfolding predicate Static.mark_readonly_region
mark_readonly ptr m = predicate ptr Static.length m >>= λ size.
    ok (record m { statics = Static.mark_readonly_region ptr size m.statics })

unfoldable pub valid : ℕ → ℕ → ℕ → Segments → Bool
unfolding allocated readonly
valid ptr size ptr_base m = allocated ptr size ptr_base m && not (readonly ptr m)

unfoldable pub valid_read : ℕ → ℕ → ℕ → Segments → Bool
unfolding allocated
valid_read ptr size ptr_base m = allocated ptr size ptr_base m

unfoldable pub base_addr : ℕ → Segments → Run ℕ
unfolding try_segment Heap.heap_info Static.static_info
base_addr ptr m = elim (try_segment ptr m) [
  | on_heap ↦ ok (Heap.heap_info ptr Static.base m.dynamic)
  | on_static ↦ ok (Static.static_info ptr Static.base m.statics)
  | elsewhere ↦ abort
]

unfoldable pub block_length : ℕ → Segments → Run ℕ
unfolding try_segment Heap.heap_info Static.static_info
block_length ptr m = elim (try_segment ptr m) [
  | on_heap ↦ ok (Heap.heap_info ptr Static.length m.dynamic)
  | on_static ↦ ok (Static.static_info ptr Static.length m.statics)
  | elsewhere ↦ abort
]

unfoldable pub offset : ℕ → Segments → Run ℕ
unfolding try_segment Heap.heap_info Static.static_info
offset ptr m = elim (try_segment ptr m) [
  | on_heap ↦ ok (Heap.heap_info ptr Static.offset m.dynamic)
  | on_static ↦ ok (Static.static_info ptr Static.offset m.statics)
  | elsewhere ↦ abort
]

unfoldable pub initialized : ℕ → ℕ → Segments → Bool
unfolding try_segment Heap.heap_initialized Static.static_initialized
initialized ptr size m = elim (try_segment ptr m) [
  | on_heap ↦ Heap.heap_initialized ptr size m.dynamic
  | on_static ↦ Static.static_initialized ptr size m.statics
  | elsewhere ↦ false
]

-- the result -1, as a word
abbrev pub minus_one : ℕ
minus_one = 0xffff_ffff

-- `posix_memalign`: its result, and the memory. What `public_posix_memalign` returns is `res`, with
-- the address `block` that it writes to `*memptr`.
unfoldable pub posix_memalign : ℕ → ℕ → ℕ → ℕ → ℕ → ℕ → Segments → Run (ℕ × Segments)
unfolding allocated powof2 Heap.set_heap_segment Heap.alloc_size
posix_memalign memptr alignment size res block least m =
    if size == 0 || alignment == 0
    then ok (minus_one, m)
    else powof2 alignment >>= λ power.
        if not power || not (alignment % 8 == 0)
        then ok (minus_one, m)
        else vassert (allocated memptr 8 memptr m)
          >> (if res == 0
              then (Heap.set_heap_segment block size (Heap.alloc_size size) false least m.dynamic
                  >>= λ h. ok (res, record m { dynamic = h }))
              else ok (res, m))

-- the loop of `argv_alloca` over the strings of `argv` or `environ`, each with its length
unfoldable pub strings_alloca : List (ℕ × ℕ) → Static.Shadows → Static.Shadows
unfolding Static.shadow_alloca Static.initialize_static_region
strings_alloca [] s = s
strings_alloca (string ∷ strings) s =
    let len = string.1 + 1 in
    strings_alloca strings
      (Static.initialize_static_region (string.0) len (Static.shadow_alloca (string.0) len s))

-- `argv_alloca`, where `argc_ref` and `argv_ref` hold `argc` and `argv`
unfoldable pub argv_alloca : ℕ → ℕ → ℕ → ℕ → List (ℕ × ℕ) → List (ℕ × ℕ) → Segments → Segments
unfolding Static.shadow_alloca Static.initialize_static_region strings_alloca
argv_alloca argc_ref argv_ref argc argv args env m =
    let containers = Static.shadow_alloca argv_ref 8 (Static.shadow_alloca argc_ref 4 m.statics) in
    let len = (argc + 1) * 8 in
    let table =
      Static.initialize_static_region argv len (Static.shadow_alloca argv len containers) in
    record m { statics = strings_alloca env (strings_alloca args table) }
