-- ===== src/Segment/Mmodel/Dispatch.antt =====
-- What the memory model over shadow memory does with an address of no segment, and with a block that
-- it stores.
use frama_c_snapshot.Prelude.{ℕ, ◌≡◌, refl, false}
use frama_c_snapshot.Prelude.Run.{abort}
use frama_c_snapshot.Segment.Heap
use frama_c_snapshot.Segment.Layout.{is_on_static}
use frama_c_snapshot.Segment.Mmodel

elsewhere_lem :
    (addr : ℕ) (m : Mmodel.Segments)
    → Heap.is_on_heap addr m.dynamic ≡ false
    → is_on_static addr m.layout ≡ false
    → Mmodel.try_segment addr m ≡ Mmodel.elsewhere
unfolding Mmodel.try_segment
elsewhere_lem addr m p q = rw (p, q) refl

-- At an address that is neither on the heap nor on a static segment, no region is allocated,
-- initialized, valid or valid to read, and `base_addr`, `block_length`, `offset`, `initialize` and
-- `full_init` abort the run.
pub elsewhere_aborts :
    (addr size base_ptr : ℕ) (m : Mmodel.Segments)
    → Heap.is_on_heap addr m.dynamic ≡ false
    → is_on_static addr m.layout ≡ false
    → (Mmodel.allocated addr size base_ptr m ≡ false)
      × (Mmodel.initialized addr size m ≡ false)
      × (Mmodel.valid addr size base_ptr m ≡ false)
      × (Mmodel.valid_read addr size base_ptr m ≡ false)
      × (Mmodel.base_addr addr m ≡ abort)
      × (Mmodel.block_length addr m ≡ abort)
      × (Mmodel.offset addr m ≡ abort)
      × (Mmodel.initialize addr size m ≡ abort)
      × (Mmodel.full_init addr m ≡ abort)
unfolding Mmodel.allocated Mmodel.initialized Mmodel.valid Mmodel.valid_read Mmodel.base_addr
    Mmodel.block_length Mmodel.offset Mmodel.initialize Mmodel.full_init Mmodel.predicate
elsewhere_aborts addr size base_ptr m p q =
    let e = elsewhere_lem addr m p q in
    rw
      (
        Mmodel.allocated, Mmodel.initialized, Mmodel.base_addr, Mmodel.block_length, Mmodel.offset,
        Mmodel.initialize, Mmodel.predicate, e,
      )
      (refl, refl, refl, refl, refl, refl, refl, refl, refl)
