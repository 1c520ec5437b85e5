-- ===== src/Segment.antt =====
-- plugins/e-acsl/share/e-acsl/segment_model: the memory model over shadow memory.
pub mod Words
pub mod Static
pub mod Bits
pub mod Heap
pub mod Layout
pub mod Mmodel
pub mod Temporal
mod Tests
