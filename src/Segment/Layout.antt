-- ===== src/Segment/Layout.antt =====
-- The segments of a program and of its shadow memory, in segment_model/e_acsl_shadow_layout.h. What
-- the system and the public allocators give is an argument: the bounds of the segments of the
-- program, and the first address of each shadow segment. The names, the mspaces and the `parent` of a
-- segment, which only logs and the deallocation read, are left out. An offset is a word.
pub mod Access
use frama_c_snapshot.Prelude.{
  ℕ, ◌+◌, ◌-◌, ◌*◌, ◌/◌, ◌%◌, Bool, true, false, ◌&&◌, ◌||◌, leb, ltb, if◌then◌else◌,
}
use frama_c_snapshot.Prelude.Bits.{pow2}
use frama_c_snapshot.Segment.Static.{sub_word}

pub record MemorySegment : Type 0 where
  pub size : ℕ
  pub start : ℕ
  pub end : ℕ
  pub shadow_ratio : ℕ
  pub shadow_offset : ℕ

pub record MemoryPartition : Type 0 where
  pub application : MemorySegment
  pub primary : MemorySegment
  pub secondary : MemorySegment

pub record MemoryLayout : Type 0 where
  pub heap : MemoryPartition
  pub stack : MemoryPartition
  pub global : MemoryPartition
  pub tls : MemoryPartition
  pub is_initialized : Bool

unfoldable pub set_application_segment : ℕ → ℕ → MemorySegment
set_application_segment start size = record {
  size = size;
  start = start;
  end = (start + size) % pow2 64;
  shadow_ratio = 0;
  shadow_offset = 0;
}

-- `set_shadow_segment`, where `start` is what `mspace_malloc` returns
unfoldable pub set_shadow_segment : MemorySegment → ℕ → ℕ → MemorySegment
unfolding sub_word
set_shadow_segment parent ratio start = record {
  size = parent.size / ratio;
  start = start;
  end = (start + parent.size / ratio) % pow2 64;
  shadow_ratio = ratio;
  shadow_offset = sub_word parent.start start;
}

-- a segment of the program with its two shadow segments, the second at `ratio` bytes to the byte
unfoldable pub set_partition : ℕ → ℕ → ℕ → ℕ → ℕ → MemoryPartition
unfolding set_application_segment set_shadow_segment
set_partition start size ratio primary secondary =
    let application = set_application_segment start size in
    record {
      application = application;
      primary = set_shadow_segment application 1 primary;
      secondary = set_shadow_segment application ratio secondary;
    }

-- `init_shadow_layout_stack`
unfoldable pub init_shadow_layout_stack : ℕ → ℕ → ℕ → ℕ → MemoryLayout → MemoryLayout
unfolding set_partition
init_shadow_layout_stack start size primary secondary layout = record layout {
  stack = set_partition start size 1 primary secondary;
  is_initialized = true;
}

-- the greater of two words, as the source tests it
abbrev pub greater : ℕ → ℕ → ℕ
greater a b = if ltb b a then a else b

-- `get_tls_start`, at the addresses of `id_tdata` and `id_tbss`
unfoldable pub get_tls_start : ℕ → ℕ → ℕ → ℕ → MemoryLayout → ℕ
unfolding sub_word
get_tls_start tdata tbss tls_size stack_size layout =
    let tls_start_half = sub_word (if ltb tbss tdata then tbss else tdata) (tls_size / 2) in
    let used = greater layout.heap.application.end (
      greater layout.global.secondary.end (
        greater layout.global.primary.end
          (greater layout.heap.secondary.end layout.heap.primary.end))) in
    let max_shadow = (used + 2 * stack_size + 1) % pow2 64 in greater tls_start_half max_shadow

-- what the system gives to `init_shadow_layout_heap_global_tls`
pub record System : Type 0 where
  pub heap_start : ℕ
  pub heap_size : ℕ
  pub global_start : ℕ
  pub global_size : ℕ
  pub id_tdata : ℕ
  pub id_tbss : ℕ
  pub tls_size : ℕ
  pub stack_size : ℕ
  pub heap_primary : ℕ
  pub heap_secondary : ℕ
  pub global_primary : ℕ
  pub global_secondary : ℕ
  pub tls_primary : ℕ
  pub tls_secondary : ℕ

unfoldable pub init_shadow_layout_heap_global_tls : System → MemoryLayout → MemoryLayout
unfolding set_partition get_tls_start
init_shadow_layout_heap_global_tls s layout =
    let heap = set_partition s.heap_start s.heap_size 8 s.heap_primary s.heap_secondary in
    let global = set_partition s.global_start s.global_size 1 s.global_primary s.global_secondary in
    let so_far = record layout { heap = heap; global = global } in
    let tls_start = get_tls_start s.id_tdata s.id_tbss s.tls_size s.stack_size so_far in
    record so_far {
      tls = set_partition tls_start s.tls_size 1 s.tls_primary s.tls_secondary;
      is_initialized = true;
    }

-- `SHADOW_ACCESS(_addr, _offset)`
unfoldable pub shadow_access : ℕ → ℕ → ℕ
unfolding sub_word
shadow_access addr off = sub_word addr off

-- `SCALED_SHADOW_ACCESS(_addr, _start, _offset, _scale)`
unfoldable pub scaled_shadow_access : ℕ → ℕ → ℕ → ℕ → ℕ
unfolding sub_word
scaled_shadow_access addr start off scale =
    (sub_word start off + sub_word addr start / scale) % pow2 64

unfoldable pub heap_shadow : ℕ → MemoryLayout → ℕ
unfolding shadow_access
heap_shadow addr layout = shadow_access addr layout.heap.primary.shadow_offset

unfoldable pub heap_init_shadow : ℕ → MemoryLayout → ℕ
unfolding scaled_shadow_access
heap_init_shadow addr layout =
    scaled_shadow_access addr layout.heap.application.start layout.heap.secondary.shadow_offset
      layout.heap.secondary.shadow_ratio

-- `IS_ON(_addr, _seg)`
abbrev pub is_on : ℕ → MemorySegment → Bool
is_on addr seg = leb seg.start addr && leb addr seg.end

abbrev pub is_on_heap : ℕ → MemoryLayout → Bool
is_on_heap addr layout = is_on addr layout.heap.application

abbrev pub is_on_stack : ℕ → MemoryLayout → Bool
is_on_stack addr layout = is_on addr layout.stack.application

abbrev pub is_on_global : ℕ → MemoryLayout → Bool
is_on_global addr layout = is_on addr layout.global.application

abbrev pub is_on_tls : ℕ → MemoryLayout → Bool
is_on_tls addr layout = is_on addr layout.tls.application

abbrev pub is_on_static : ℕ → MemoryLayout → Bool
is_on_static addr layout =
    is_on_stack addr layout || is_on_global addr layout || is_on_tls addr layout

abbrev pub is_on_valid : ℕ → MemoryLayout → Bool
is_on_valid addr layout =
    is_on_stack addr layout
    || is_on_heap addr layout
    || is_on_global addr layout
    || is_on_tls addr layout

-- `PRIMARY_SHADOW(_addr)`
unfoldable pub primary_shadow : ℕ → MemoryLayout → ℕ
unfolding shadow_access
primary_shadow addr layout =
    if is_on_stack addr layout
    then shadow_access addr layout.stack.primary.shadow_offset
    else if is_on_global addr layout
    then shadow_access addr layout.global.primary.shadow_offset
    else if is_on_tls addr layout
    then shadow_access addr layout.tls.primary.shadow_offset
    else 0

-- `SECONDARY_SHADOW(_addr)`
unfoldable pub secondary_shadow : ℕ → MemoryLayout → ℕ
unfolding shadow_access
secondary_shadow addr layout =
    if is_on_stack addr layout
    then shadow_access addr layout.stack.secondary.shadow_offset
    else if is_on_global addr layout
    then shadow_access addr layout.global.secondary.shadow_offset
    else if is_on_tls addr layout
    then shadow_access addr layout.tls.secondary.shadow_offset
    else 0
