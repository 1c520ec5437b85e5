-- ===== src/Checked/Tests.antt =====
-- Runs of the checked string functions, and their theorems at concrete memories.
use frama_c_snapshot.Prelude.{
  ℕ, ◌+◌, ◌-◌, ◌≡◌, ◌↔◌, refl, true, false, ◌&&◌, leb, if◌then◌else◌, arith, ◌==◌,
}
use frama_c_snapshot.Prelude.Run.{ok, abort, ◌>>=◌}
use frama_c_snapshot.Segment.Words.{Bytes}
use frama_c_snapshot.Segment.Static
use frama_c_snapshot.Segment.Heap
use frama_c_snapshot.Segment.Heap.Blocks.{IsPlace}
use frama_c_snapshot.Segment.Layout
use frama_c_snapshot.Segment.Mmodel
use frama_c_snapshot.Checked.Spaces
use frama_c_snapshot.Checked.Spaces.Strings.{IsFirst}
use frama_c_snapshot.Checked.Calls.{builtin_strlen, builtin_strcat, builtin_strcpy, builtin_memset}
use frama_c_snapshot.Checked.Calls.Safe.{
  segment_tracking, builtin_strlen-IsFirst, builtin_memset-malloc,
}

-- what the function of the C library returns
abbrev called : ℕ
called = 7

-- a memory model with one block of 16 bytes at 0x100
abbrev one_block : Spaces.Tracking
one_block = record {
  allocated = λ addr size base_ptr. ok (leb 0x100 addr && leb (addr + size) 0x110);
  readonly = λ addr. ok false;
  writeable = λ addr size base_ptr. ok (leb 0x100 addr && leb (addr + size) 0x110);
  block_length = λ addr. ok 16;
  offset = λ addr. ok (addr - 0x100);
}

-- "ab" at 0x100, and "cd" behind its terminator
abbrev two_strings : Bytes
two_strings x =
    if x == 0x100
    then 97
    else if x == 0x101
    then 98
    else if x == 0x103
    then 99
    else if x == 0x104
    then 100
    else 0

strlen_cd : builtin_strlen one_block two_strings 0x103 ≡ ok 2
unfolding builtin_strlen Static.sub_word
strlen_cd = refl

-- The copy would overwrite its own source, and the check does not see it.
strcat_touching : builtin_strcat one_block two_strings called 0x100 0x103 ≡ ok called
unfolding builtin_strcat Static.sub_word
strcat_touching = refl

strcpy_touching : builtin_strcpy one_block two_strings called 0x102 0x103 ≡ abort
unfolding builtin_strcpy Static.sub_word
strcpy_touching = refl

builtin_strlen-IsFirst_example :
    (builtin_strlen one_block two_strings 0x103 ≡ ok 2)
    ↔ IsFirst (λ k. two_strings (0x103 + k)) (16 - 3) 0 2
builtin_strlen-IsFirst_example =
    builtin_strlen-IsFirst one_block two_strings 0x103 16 3 2 refl refl refl (omega arith)
      (omega arith)

abbrev heap_memory : Mmodel.Segments
heap_memory = record {
  layout = record {
    heap = Layout.set_partition 0x10000 0x10000 8 0x40000 0x50000;
    stack = Layout.set_partition 0x70000 0x1000 1 0x71000 0x72000;
    global = Layout.set_partition 0x1000 0x1000 1 0x60000 0x61000;
    tls = Layout.set_partition 0x80000 0x1000 1 0x81000 0x82000;
    is_initialized = true;
  };
  statics = record { primary = λ x. 0; secondary = λ x. 0 };
  dynamic = record {
    heap_start = 0x10000;
    heap_end = 0x20000;
    heap_mspace_least = 0x10000;
    shadow = λ x. 0;
    init_shadow = λ x. 0;
    heap_allocation_size = 0;
    heap_allocated_blocks = 0;
  };
}

heap_memory-IsPlace : IsPlace 40 0x10040 0x10000 heap_memory.dynamic
heap_memory-IsPlace =
    (omega arith, omega arith, omega arith, refl, omega arith, omega arith, omega arith, refl)

builtin_memset-malloc_example :
    (Heap.malloc 40 0x10040 0x10000 heap_memory.dynamic >>= λ r.
    builtin_memset
      (segment_tracking (record heap_memory { dynamic = r.1 }))
      (λ x. 0)
      called
      (r.0 + 8)
      32)
    ≡ (if leb (8 + 32) 40 then ok called else abort)
unfolding Layout.set_partition Layout.set_application_segment
builtin_memset-malloc_example =
    builtin_memset-malloc 40 0x10040 0x10000 8 32 heap_memory (λ x. 0) called heap_memory-IsPlace
      (omega arith) refl (omega arith)
