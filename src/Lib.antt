-- ===== src/Lib.antt =====
-- Run-time checks and C library code of Frama-C, modelled and proved.
--
-- The program consists of the run-time library of the E-ACSL plug-in, which an instrumented C
-- program is linked with, and of the C library that the analyses read in place of the system's one.
-- The paths below are from the repository's root; `e-acsl/` stands for
-- `src/plugins/e-acsl/share/e-acsl/`.
--
-- - Bittree: the Patricia trie of e-acsl/bittree_model/e_acsl_bittree.h and e_acsl_bittree_api.h,
--   which keeps the tracked memory blocks in the order of their addresses. Bittree/Tables and
--   Bittree/Mask: the tables `Tmasks`, `Teq`, `Tneq` and the function `mask`. Bittree/Block: the
--   structures. Bittree/Trie: `bt_insert`, `bt_remove`, `bt_lookup`, `bt_find`, `bt_clean`. A tree of
--   nodes stands for the pointers of a node; its place in the tree stands for `parent`.
-- - Mmodel: the memory model over the trie, e-acsl/bittree_model/e_acsl_bittree_mmodel.c, with the
--   heap account of e-acsl/e_acsl_leak.h, the bit operations of e-acsl/e_acsl_bits.h and `powof2` of
--   e-acsl/e_acsl_malloc.h. Mmodel/Init: which bytes of a block are initialized. Mmodel/Memory: the
--   state (`bt_root`, `heap_allocation_size`, `heap_allocated_blocks`) and the predicates on
--   addresses. Mmodel/Alloc: the operations that make, move and drop blocks. Mmodel/Steps: the runs
--   that the calls of a program make. What the underlying
--   allocators return is an argument of these operations.
-- - Segment: the memory model over shadow memory, in e-acsl/segment_model. Segment/Words: loads and
--   stores of words in memory by bytes, and Segment/Bits: the bit arrays of e-acsl/e_acsl_bits.h
--   there. Segment/Static: the shadows of the stack, of globals and of thread-local storage in
--   e_acsl_segment_tracking.h (`shadow_alloca`, `static_info` and the operations up to
--   `mark_readonly_region`); Segment/Heap: the shadows of the heap in the same file, from
--   `set_heap_segment` to `initialize_heap_region`. Segment/Layout: the segments and the addresses of
--   their shadows, e_acsl_shadow_layout.h. Segment/Mmodel: e_acsl_segment_mmodel.c, which sends each
--   address to the operations of its segment. Segment/Temporal: the timestamps of blocks and of
--   pointers there, in builds with temporal checks.
-- - Temporal: the temporal checks, e-acsl/e_acsl_temporal.h, over the interface `Referents` of a memory
--   model, and the counter of e_acsl_temporal_timestamp.h. Segment/Temporal/Passing is about the
--   pointers that pass between functions.
-- - Checked: the string functions with checks, e-acsl/e_acsl_libc_replacements.h. Checked/Spaces: the
--   checks on strings and regions, over the interface `Tracking` of a memory model.
--   Checked/Calls: the replaced functions; Checked/Calls/Safe fills the interface with both models.
-- - Format: the check of format strings, e-acsl/e_acsl_format.h. Format/Abbrev: the abbreviated
--   types, over the sizes of C's types. Format/Chars: the map of character classes.
--   Format/Directive and Format/Fetch: the parser of directives. Format/Validate: the checks of a
--   directive. Format/Printf: `validate_format` and the functions of the printf family.
-- - Libc: share/libc/ctype.c (Libc/Ctype) and share/libc/string.c (Libc/Bytes for blocks of bytes,
--   Libc/Scan for functions that read strings, Libc/Write for those that make them), wchar.c
--   (Libc/Wide), `abs` and `atoi` (Libc/Number), `calloc` and `posix_memalign` (Libc/Alloc) of
--   stdlib.c, inttypes.c (Libc/Inttypes), and `__finitef` and `__finite` of math.c (Libc/Finite).
--   Libc/Entropy: the unknown values of share/libc/__fc_builtin.c, as the reads of a volatile
--   variable; Libc/Env: the environment of stdlib.c over such values. Libc/Contract: what the headers
--   state in ACSL, as predicates on functions: the contracts of ctype.h (Libc/Contract/Chars) and of
--   string.h (Libc/Contract/Strings), and the axioms of __fc_string_axiomatic.h, on which those of
--   string.h stand (Libc/Contract/Axioms).
-- - Prelude: what the parts share: Boolean tests, lists, results that may fail, binary digits.
--
-- The client of the trie is the memory model, which calls its five operations and assigns to the
-- blocks that they return; `write_block` of Mmodel/Memory is such an assignment. The format checks
-- use the strings of the C library.
--
-- Two memory models implement one interface, and a program is linked with one of them. In the shadow
-- memory, a byte of the model stands at the address that it shadows: Segment/Layout/Access shows
-- where the layout puts it. The init shadow of the heap is indexed from its own start.
--
-- A call ends with `ok`, with `abort` (`vabort` or a failed `vassert`), or with `fault` (undefined
-- behaviour: a null pointer followed, an access out of an object, an `int` that overflows; or a loop
-- that never ends). The ACSL assertions of `getenv` and `putenv` abort where they do not hold. A word
-- has 16, 32 or 64 bits in the trie and the memory model, and arithmetic on it is taken modulo its
-- range. An `int` of the C library is the word of its 32 bits. A pointer that a string function
-- reads is the list of the bytes from it to the end of its object.
--
-- Loops are structural where the source counts or walks through a string. Six run on fuel: the
-- search of `mask`, with as many rounds as a word has bits; `bt_find`, with one more than the
-- number of nodes, since each round leaves a node for good; `powof2`, with one more than its
-- argument, which each round halves; the two loops of Segment/Static over a region, with one round
-- for each of its bytes, of which a round takes up to eight; and `get_format_directives`, with one
-- more than the bytes of the format, of which each round takes one.
--
-- Bounds: in the shadow memory model a heap block of more than 2^31 bytes is a fault, since the
-- offset of its last segment overflows an `int`; in the model over the trie, `initialize` of 2^32
-- bytes or more is one, since its counter is an `unsigned`; and a region whose size is negative as
-- a `long` has no rounds in Segment/Static. What is proved of the contracts of `memchr`, `memset`
-- and `strrchr` is at characters below 128, where the signedness of `char` plays no part; the
-- pointers that the copying functions return, their destinations, are left out, as is an overlap
-- of their arguments.
--
-- Not modelled: the builds with debug output and weak validity, whose branches the preprocessor
-- removes, and the timestamps of the trie model; the other files of Segment are about
-- builds without temporal checks; the start of the program (`memory_init`, and `argv_alloca` of the
-- trie's model), which tracks what the system passes; output, traces and the printf of a third party;
-- the limits that the system gives to the layout; the allocator (src/plugins/e-acsl/contrib/libdlmalloc), a library of
-- another project; the functions of the C library that return unknown values; and the analyses
-- themselves, which are OCaml programs.
pub mod Prelude
pub mod Bittree
pub mod Mmodel
pub mod Libc
pub mod Format
pub mod Temporal
pub mod Segment
pub mod Checked
