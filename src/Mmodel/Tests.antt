-- ===== src/Mmodel/Tests.antt =====
-- Runs of the memory model, and its theorems at concrete memories.
use frama_c_snapshot.Prelude.{ℕ, ◌<◌, ◌≡◌, ◌≢◌, refl, true, false, ◌||◌, none, some, [], ◌∷◌, arith}
use frama_c_snapshot.Prelude.Run.{ok, abort, ◌>>=◌}
use frama_c_snapshot.Bittree.Tables.{w64}
use frama_c_snapshot.Bittree.Block.{Block}
use frama_c_snapshot.Bittree.Trie.{new_leaf}
use frama_c_snapshot.Bittree.Trie.Join.{new_leaf-Trie}
use frama_c_snapshot.Bittree.Trie.Lookup.{tracked}
use frama_c_snapshot.Bittree.Trie.Remove.{IsTrie, tracked_root}
use frama_c_snapshot.Mmodel.Init.{initialize_block, initialized_block}
use frama_c_snapshot.Mmodel.Init.Bitmap.{bit_at, count}
use frama_c_snapshot.Mmodel.Init.Marking.{in_range, init_at, IsTracked}
use frama_c_snapshot.Mmodel.Init.Blocks.{initialize_block-marks, initialize-initialized}
use frama_c_snapshot.Mmodel.Memory.{Memory}
use frama_c_snapshot.Mmodel.Alloc.{new_block, resize_block, malloc, free, powof2}
use frama_c_snapshot.Mmodel.Alloc.{store_block, delete_block}
use frama_c_snapshot.Mmodel.Alloc.Stack.{delete_block-store_block}
use frama_c_snapshot.Mmodel.Steps.{
  IsFree, IsSound, allocates, Reach, start, next, empty_memory, Reach-IsSound,
}
use frama_c_snapshot.Mmodel.Alloc.Heap.{heap_block, SameMemory, free-untracked, free-malloc}

abbrev block : Block
block = heap_block 0x1000 20

abbrev memory : Memory
memory = record {
  root = some (new_leaf w64 block);
  heap_allocation_size = 20;
  heap_allocated_blocks = 1;
}

memory-IsTrie : IsTrie w64 memory.root
memory-IsTrie = (0, new_leaf-Trie w64 block (omega arith))

block_tracked : tracked_root memory.root 0x1000 ≡ some block
unfolding tracked
block_tracked = refl

free_elsewhere : tracked_root memory.root 0x2000 ≡ none
unfolding tracked
free_elsewhere = refl

full : memory.root ≢ none
full e = ground arith

powers : (powof2 16 ≡ ok true) × (powof2 24 ≡ ok false) × (powof2 0 ≡ ok false)
unfolding powof2
powers = (refl, refl, refl)

free-untracked_example : free w64 0x2000 memory ≡ abort
free-untracked_example =
    free-untracked w64 0x2000 memory memory-IsTrie full (omega arith) (omega arith) free_elsewhere

free-malloc_example :
    (s' : Memory) × (s'' : Memory) × (malloc w64 0x2000 8 memory ≡ (0x2000, s'))
    × (free w64 0x2000 s' ≡ ok s'')
    × IsTrie w64 s''.root
    × SameMemory w64 memory s''
free-malloc_example =
    free-malloc w64 0x2000 8 memory memory-IsTrie (omega arith, omega arith) (omega arith)
      (omega arith) free_elsewhere (omega arith) (omega arith)

-- a block of ten bytes, the first three and the last one of them initialized
abbrev partial : Block
partial = record (new_block 0x1000 10) { init_ptr = some (7 ∷ 2 ∷ []); init_bytes = 4 }

partial-IsTracked : IsTracked partial
unfolding bit_at count
partial-IsTracked = record { partly = λ _ _. (7 ∷ 2 ∷ [], refl, omega arith, refl) }

initialize_block-marks_example :
    (b' : Block) × (initialize_block 2 5 partial ≡ ok b')
    × IsTracked b'
    × ((b'.ptr ≡ 0x1000) × (b'.size ≡ 10) × (b'.is_readonly ≡ false) × (b'.is_freeable ≡ false))
    × ((i : ℕ) → i < 10 → init_at b' i ≡ (in_range 2 5 i || init_at partial i))
initialize_block-marks_example =
    initialize_block-marks partial 2 5 partial-IsTracked (omega arith) (omega arith) (omega arith)

initialize-initialized_example :
    (b' : Block) × (initialize_block 2 5 partial ≡ ok b') × (initialized_block 3 4 b' ≡ ok true)
initialize-initialized_example =
    initialize-initialized partial 2 5 3 4 partial-IsTracked (omega arith) (omega arith)
      (omega arith) (omega arith) (omega arith)

-- A shrunk block: the four bytes left have never been initialized, and count as initialized.
abbrev upper_half : Block
upper_half = record (new_block 0x1000 8) { init_ptr = some (0xf0 ∷ []); init_bytes = 4 }

shrunk :
    (initialized_block 0 1 upper_half ≡ ok false)
    × ((resize_block 4 upper_half >>= initialized_block 0 1) ≡ ok true)
unfolding initialized_block resize_block
shrunk = (refl, refl)

delete_block-store_block_example :
    (s' : Memory) × (s'' : Memory) × (store_block w64 0x2000 8 memory
      ≡ (some (new_block 0x2000 8), s'))
    × (tracked_root s'.root 0x2000 ≡ some (new_block 0x2000 8))
    × (delete_block w64 0x2000 s' ≡ ok s'')
    × IsTrie w64 s''.root
    × SameMemory w64 memory s''
delete_block-store_block_example =
    delete_block-store_block w64 0x2000 8 memory memory-IsTrie (omega arith) (omega arith)
      free_elsewhere

-- a run that allocates 20 bytes at 0x1000
abbrev allocated_once : Memory
unfolding malloc
allocated_once = (malloc w64 0x1000 20 empty_memory).1

once-IsFree : IsFree w64 0x1000 empty_memory
once-IsFree = ((λ q. absurd (ground arith)), omega arith, refl)

reached : Reach w64 allocated_once
unfolding malloc
reached = next start (allocates 0x1000 20 0x1000 once-IsFree refl)

Reach-IsSound_example : IsSound w64 allocated_once
Reach-IsSound_example = Reach-IsSound w64 reached
