-- ===== src/Segment/Tests.antt =====
-- Runs of the shadow memory model, and its theorems at concrete memories.
use frama_c_snapshot.Prelude.{
  ℕ, ◌+◌, ◌<◌, ◌≤◌, ◌≡◌, ◌↔◌, ◌/◌, refl, true, false, ◌&&◌, leb, ltb, if◌then◌else◌, arith,
}
use frama_c_snapshot.Prelude.Run.{ok, ◌>>=◌}
use frama_c_snapshot.Segment.Static
use frama_c_snapshot.Segment.Static.Blocks.{static_info-shadow_alloca}
use frama_c_snapshot.Segment.Static.Marking.{initialize_static_region-shadow_alloca}
use frama_c_snapshot.Segment.Heap
use frama_c_snapshot.Segment.Heap.Blocks.{
  IsPlace, IsSameHeap, malloc-heap_info, free-malloc-IsSameHeap,
}
use frama_c_snapshot.Segment.Heap.Init.{init_bit, initialize_heap_region-init_bit}
use frama_c_snapshot.Segment.Layout
use frama_c_snapshot.Segment.Layout.Access.{set_partition-Inside}
use frama_c_snapshot.Segment.Mmodel

abbrev zeros : Static.Shadows
zeros = record { primary = λ x. 0; secondary = λ x. 0 }

abbrev pub empty_heap : Heap.Heap
empty_heap = record {
  heap_start = 0x10000;
  heap_end = 0x20000;
  heap_mspace_least = 0x10000;
  shadow = λ x. 0;
  init_shadow = λ x. 0;
  heap_allocation_size = 0;
  heap_allocated_blocks = 0;
}

-- the last byte of a block of 20 bytes on the stack
last_byte_length :
    Static.static_info 0x1013 Static.length (Static.shadow_alloca 0x1000 20 zeros) ≡ 20
unfolding Static.static_info Static.shadow_alloca
last_byte_length = refl

static_info-shadow_alloca_example :
    (Static.static_info (0x1000 + 19) Static.base (Static.shadow_alloca 0x1000 20 zeros) ≡ 0x1000)
    × (Static.static_info (0x1000 + 19) Static.offset (Static.shadow_alloca 0x1000 20 zeros) ≡ 19)
    × (Static.static_info (0x1000 + 19) Static.length (Static.shadow_alloca 0x1000 20 zeros) ≡ 20)
static_info-shadow_alloca_example =
    static_info-shadow_alloca zeros 0x1000 20 19 (omega arith) (omega arith) (omega arith)

abbrev marked : Static.Shadows
marked = Static.initialize_static_region (0x1000 + 3) 10 (Static.shadow_alloca 0x1000 20 zeros)

initialize_static_region-shadow_alloca_example :
    ((Static.static_initialized (0x1000 + 5) 8 marked ≡ true) ↔ ((3 ≤ 5) × (5 + 8 ≤ 3 + 10)))
    × (Static.static_info (0x1000 + 5) Static.base marked ≡ 0x1000)
    × (Static.static_info (0x1000 + 5) Static.offset marked ≡ 5)
    × (Static.static_info (0x1000 + 5) Static.length marked ≡ 20)
initialize_static_region-shadow_alloca_example =
    initialize_static_region-shadow_alloca zeros 0x1000 20 3 10 5 8 (omega arith) (omega arith)
      (omega arith) (omega arith) (omega arith)

pub place : IsPlace 40 0x10040 0x10000 empty_heap
place = (omega arith, omega arith, omega arith, refl, omega arith, omega arith, omega arith, refl)

malloc-heap_info_example :
    (h' : Heap.Heap) × (Heap.malloc 40 0x10040 0x10000 empty_heap ≡ ok (0x10040, h'))
    × (Heap.heap_info (0x10040 + 33) Static.base h' ≡ 0x10040)
    × (Heap.heap_info (0x10040 + 33) Static.offset h' ≡ 33)
    × (Heap.heap_info (0x10040 + 33) Static.length h' ≡ 40)
    × ((Heap.heap_allocated (0x10040 + 33) 7 (0x10040 + 2) h' ≡ true) ↔ (33 + 7 ≤ 40))
    × ((Heap.freeable (0x10040 + 33) h' ≡ true) ↔ (◌≡◌ {A = ℕ} 33 0))
malloc-heap_info_example =
    malloc-heap_info 40 0x10040 0x10000 33 7 2 empty_heap place (omega arith) (omega arith)
      (omega arith)

free-malloc-IsSameHeap_example :
    (h' : Heap.Heap) × ((Heap.malloc 40 0x10040 0x10000 empty_heap >>= λ r. Heap.free (r.0) (r.1))
      ≡ ok h')
    × IsSameHeap empty_heap h'
free-malloc-IsSameHeap_example =
    free-malloc-IsSameHeap 40 0x10040 0x10000 empty_heap place ((λ k p. refl), λ k p. refl)
      (omega arith)

initialize_heap_region-init_bit_example :
    init_bit 0x10050 (Heap.initialize_heap_region 0x10043 30 empty_heap)
    ≡ (if leb 0x10043 0x10050 && ltb 0x10050 (0x10043 + 30) then 1 else init_bit 0x10050 empty_heap)
initialize_heap_region-init_bit_example =
    initialize_heap_region-init_bit 0x10043 30 0x10050 empty_heap (omega arith) (omega arith)

-- Of 16 initialized bytes, the 4 from the second on count as uninitialized.
misaligned_region :
    Heap.heap_initialized 0x10041 4 (Heap.initialize_heap_region 0x10040 16 empty_heap) ≡ false
unfolding Heap.heap_initialized Heap.initialize_heap_region
misaligned_region = refl

aligned_region :
    Heap.heap_initialized 0x10040 16 (Heap.initialize_heap_region 0x10040 16 empty_heap) ≡ true
unfolding Heap.heap_initialized Heap.initialize_heap_region
aligned_region = refl

abbrev partition : Layout.MemoryPartition
partition = Layout.set_partition 0x10000 0x8000 8 0x40000 0x50000

set_partition-Inside_example :
    (Layout.shadow_access 0x10123 partition.primary.shadow_offset ≡ partition.primary.start + 0x123)
    × (partition.primary.start + 0x123 < partition.primary.end)
    × (Layout.scaled_shadow_access 0x10123 0x10000 partition.secondary.shadow_offset
          partition.secondary.shadow_ratio
        ≡ partition.secondary.start + 0x123 / 8)
    × (partition.secondary.start + 0x123 / 8 < partition.secondary.end)
set_partition-Inside_example =
    set_partition-Inside 0x10000 0x8000 0x40000 0x50000 0x10123 (omega arith) (omega arith)
      (omega arith) refl (omega arith) (omega arith)

abbrev layout : Layout.MemoryLayout
layout = record {
  heap = partition;
  stack = Layout.set_partition 0x70000 0x1000 1 0x71000 0x72000;
  global = Layout.set_partition 0x1000 0x1000 1 0x60000 0x61000;
  tls = Layout.set_partition 0x80000 0x1000 1 0x81000 0x82000;
  is_initialized = true;
}

abbrev pub memory : Mmodel.Segments
memory = record { layout = layout; statics = zeros; dynamic = empty_heap }
