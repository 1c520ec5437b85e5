-- ===== src/Segment/Temporal/Tests.antt =====
-- Runs of the temporal checks over shadow memory, and their theorems at a concrete memory.
use frama_c_snapshot.Prelude.{
  ℕ, ◌+◌, ◌<◌, ◌≤◌, ◌≡◌, ◌≢◌, ◌⊎◌, refl, inl, inr, true, false, leb, arith,
}
use frama_c_snapshot.Prelude.Run.{ok, abort, ◌>>=◌}
use frama_c_snapshot.Temporal.{
  Checked, unset, block_n, temporal_store_nblock, temporal_memcpy, temporal_memset, temporal_valid,
  temporal_save_nblock_parameter, temporal_save_nreferent_parameter, temporal_save_copy_parameter,
  temporal_pull_parameter, temporal_reset_parameters, temporal_save_return, temporal_pull_return,
}
use frama_c_snapshot.Segment.Temporal.Passing.{Pulls, temporal_pull-save}
use frama_c_snapshot.Segment.Temporal
use frama_c_snapshot.Segment.Temporal.Stamps.{IsFar}
use frama_c_snapshot.Segment.Temporal.Reuse.{temporal_valid-reuse}
use frama_c_snapshot.Segment.Temporal.Regions.{IsRegion}
use frama_c_snapshot.Segment.Temporal.Copies.{temporal_memcpy-referents, temporal_memset-referents}
use frama_c_snapshot.Segment.Temporal.Scope.{IsLocal, IsApart, temporal_valid-scope}
use frama_c_snapshot.Segment.Heap.Blocks.{IsPlace}
use frama_c_snapshot.Segment.Layout
use frama_c_snapshot.Segment.Mmodel
use frama_c_snapshot.Segment.Tests.{memory, empty_heap, place}

place_24 : IsPlace 24 0x10040 0x10000 empty_heap
place_24 =
    (omega arith, omega arith, omega arith, refl, omega arith, omega arith, omega arith, refl)

abbrev stamped : Temporal.Temporal
stamped = record {
  segments = memory;
  heap_referents = λ x. 0;
  static_primary = λ x. 0;
  static_secondary = λ x. 0;
  temporal_timestamp = 2;
}

-- a variable on the stack
far : IsFar 0x70100 0x10040 40 memory
unfolding Mmodel.try_segment Layout.set_partition
far = inl refl

temporal_valid-reuse_example :
    (t2 : Temporal.Temporal) × (t4 : Temporal.Temporal) × ((Temporal.malloc 40 0x10040 0x10000
          stamped
        >>= λ r. temporal_store_nblock Temporal.segment_referents 0x70100 (r.0 + 8) (r.1))
      ≡ ok t2)
    × (temporal_valid Temporal.segment_referents (0x10040 + 16) 0x70100 t2 ≡ ok true)
    × ((Temporal.free 0x10040 t2 >>= Temporal.malloc 24 0x10040 0x10000) ≡ ok (0x10040, t4))
    × (temporal_valid Temporal.segment_referents (0x10040 + 8) 0x70100 t4 ≡ ok false)
temporal_valid-reuse_example =
    temporal_valid-reuse 40 24 0x10040 0x10000 0x70100 8 16 8 stamped place place_24 (omega arith)
      far (omega arith) (omega arith) (omega arith) (omega arith) (omega arith)

-- a place on the stack
local : (size : ℕ) → 0 < size → size < 256 → IsLocal 0x70200 size memory
unfolding Mmodel.try_segment Layout.set_partition
local size pos small = (
  pos,
  omega arith,
  omega arith,
  λ k lt.
      let below : leb (0x70200 + k) 0x20000 ≡ false = ground arith in
      let behind : leb (0x70200 + k) 0x2000 ≡ false = ground arith in
      let lo : leb 0x70000 (0x70200 + k) ≡ true = ground arith in
      let hi : leb (0x70200 + k) 0x71000 ≡ true = ground arith in (ground arith, ground arith),
)

apart : IsApart 0x70100 0x70200 40 memory
unfolding Mmodel.try_segment Layout.set_partition
apart = inr (refl, inl (omega arith))

temporal_valid-scope_example :
    (t2 : Temporal.Temporal) × (temporal_store_nblock Temporal.segment_referents 0x70100
        (0x70200 + 8)
        (Temporal.shadow_alloca 0x70200 40 stamped)
      ≡ ok t2)
    × (temporal_valid Temporal.segment_referents (0x70200 + 16) 0x70100 t2 ≡ ok true)
    × (temporal_valid Temporal.segment_referents
          (0x70200 + 16)
          0x70100
          (Temporal.shadow_freea 0x70200 t2)
        ≡ ok false)
    × (temporal_valid Temporal.segment_referents
          (0x70200 + 4)
          0x70100
          (Temporal.shadow_alloca 0x70200 24 (Temporal.shadow_freea 0x70200 t2))
        ≡ ok false)
temporal_valid-scope_example =
    temporal_valid-scope 40 24 0x70200 0x70100 8 16 4 stamped (local 40 (omega arith) (omega arith))
      (local 24 (omega arith) (omega arith)) (omega arith) apart (omega arith) (omega arith)
      (omega arith) (omega arith) (omega arith) (omega arith)

-- regions of the heap and of the stack
heap-IsRegion : IsRegion Mmodel.on_heap 0x10040 64 memory
unfolding Mmodel.try_segment
heap-IsRegion = (λ e. ground (arith, e), λ k lt. ground arith)

stack-IsRegion : IsRegion Mmodel.on_static 0x70200 64 memory
stack-IsRegion =
    let (_, _, _, place) = local 64 (omega arith) (omega arith) in
    (λ e. ground (arith, e), λ k lt. (place k lt).0)

temporal_memcpy-referents_example :
    (t : Temporal.Temporal) × (temporal_memcpy Temporal.segment_referents 0x70200 0x10040 64 stamped
      ≡ ok t)
    × ((i : ℕ)
        → i + 4 ≤ 64
        → Temporal.referent_timestamp (0x70200 + i) t
          ≡ Temporal.referent_timestamp (0x10040 + i) stamped)
    × ((x : ℕ)
        → (x + 4 ≤ 0x70200) ⊎ (0x70200 + 64 ≤ x)
        → Mmodel.try_segment x memory ≢ Mmodel.elsewhere
        → Temporal.referent_timestamp x t ≡ Temporal.referent_timestamp x stamped)
temporal_memcpy-referents_example =
    temporal_memcpy-referents Mmodel.on_static Mmodel.on_heap 0x70200 0x10040 64 stamped
      (omega arith) stack-IsRegion heap-IsRegion (inr (omega arith))

abbrev checked : Checked Temporal.Temporal
checked = record { store = stamped; parameter_referents = λ i. unset; return_referent = 0 }

-- a pointer on the stack, passed to a variable of the heap
temporal_pull-save_example :
    Pulls
      (temporal_save_nblock_parameter Temporal.segment_referents 0x70200 3)
      (block_n 0x10040)
      4
      0x10040
      3
      64
      checked
      (λ t. Temporal.referent_timestamp 0x10040 t ≡ ok 0)
    × Pulls
        (temporal_save_nreferent_parameter Temporal.segment_referents 0x70200 3)
        (block_n 0x10040)
        4
        0x10040
        3
        64
        checked
        (λ t. Temporal.referent_timestamp 0x10040 t ≡ ok 0)
    × Pulls
        (temporal_save_copy_parameter Temporal.segment_referents 0x70200 3)
        (block_n 0x10040)
        4
        0x10040
        3
        64
        checked
        (λ t.
          (i : ℕ)
          → i + 4 ≤ 64
          → Temporal.referent_timestamp (0x10040 + i) t
            ≡ Temporal.referent_timestamp (0x70200 + i) stamped)
    × (temporal_pull_parameter Temporal.segment_referents 0x10040 3 64
          (temporal_reset_parameters Temporal.segment_referents checked)
        ≡ abort)
    × ((c' : Checked Temporal.Temporal) × ((temporal_save_return Temporal.segment_referents 0x70200
              checked
            >>= temporal_pull_return Temporal.segment_referents 0x10040)
          ≡ ok c')
        × (Temporal.referent_timestamp 0x10040 c'.store ≡ ok 0))
unfolding Temporal.origin_timestamp Temporal.referent_timestamp Mmodel.try_segment
    Layout.set_partition
temporal_pull-save_example =
    temporal_pull-save Mmodel.on_heap Mmodel.on_static (block_n 0x10040) 0x10040 0x70200 3 4 64 0 0
      checked (omega arith) (omega arith) (omega arith) (omega arith) heap-IsRegion stack-IsRegion
      (inl (omega arith)) refl (omega arith) refl (omega arith)

temporal_memset-referents_example :
    (t : Temporal.Temporal) × (temporal_memset Temporal.segment_referents 0x70200 64 stamped ≡ ok t)
    × ((i : ℕ) → i + 4 ≤ 64 → Temporal.referent_timestamp (0x70200 + i) t ≡ ok 0)
    × ((x : ℕ)
        → (x + 4 ≤ 0x70200) ⊎ (0x70200 + 64 ≤ x)
        → Mmodel.try_segment x memory ≢ Mmodel.elsewhere
        → Temporal.referent_timestamp x t ≡ Temporal.referent_timestamp x stamped)
temporal_memset-referents_example =
    temporal_memset-referents Mmodel.on_static 0x70200 64 stamped (omega arith) stack-IsRegion
