-- ===== src/Mmodel/Alloc/Heap.antt =====
-- `malloc` and `free` of the memory model, against the map from addresses to tracked blocks, and
-- the account of the heap of e_acsl_leak.h.
use frama_c_snapshot.Prelude.{
  ℕ, ◌+◌, ◌-◌, ◌%◌, ◌<◌, ◌≡◌, ◌≢◌, refl, sym, ap, ◌∙◌, true, false, Option, none, some, arith, ◌==◌,
  ltb, if◌then◌else◌, inl, inr, Bool-cases,
}
use frama_c_snapshot.Prelude.Bits.{pow2}
use frama_c_snapshot.Prelude.Run.{ok, abort}
use frama_c_snapshot.Bittree.Tables.{WordBits, w16, w32, w64, bits}
use frama_c_snapshot.Bittree.Block.{Block, Root}
use frama_c_snapshot.Bittree.Trie.{bt_insert}
use frama_c_snapshot.Bittree.Trie.Remove.{IsTrie, tracked_root}
use frama_c_snapshot.Mmodel.Memory.{
  Memory, write_root, clean_block_init, neg_word, update_heap_allocation,
}
use frama_c_snapshot.Mmodel.Memory.Write.{
  overwritten, write_root-IsTrie, bt_insert-root, bt_remove-root, bt_lookup-root, bt_lookup-missing,
  tracked-write_root, tracked_root-ptr,
}
use frama_c_snapshot.Mmodel.Alloc.{new_block, store_block, store_freeable_block, malloc, free}

-- the block that a heap allocation tracks
abbrev pub heap_block : ℕ → ℕ → Block
heap_block ptr size = record (new_block ptr size) { is_freeable = true }

module _ (w : WordBits) where
  -- the heap account of a memory that has room for what it counts
  abbrev pub IsAccount : Memory → Type 0
  IsAccount s = (s.heap_allocation_size < pow2 (bits w)) × (s.heap_allocated_blocks < pow2 (bits w))

  -- two memories track the same blocks and count the same
  abbrev pub SameMemory : Memory → Memory → Type 0
  SameMemory s s' =
      ((y : ℕ) → tracked_root s'.root y ≡ tracked_root s.root y)
      × (s'.heap_allocation_size ≡ s.heap_allocation_size)
      × (s'.heap_allocated_blocks ≡ s.heap_allocated_blocks)

neg_word-large :
    (w : WordBits) (size : ℕ)
    → 0 < size
    → size < pow2 (bits w - 1)
    → ((neg_word w size == 0) ≡ false)
      × (ltb (neg_word w size) (pow2 (bits w - 1)) ≡ false)
      × (neg_word w size ≡ pow2 (bits w) - size)
neg_word-large w16 size p q = ground arith
neg_word-large w32 size p q = ground arith
neg_word-large w64 size p q = ground arith

up_down :
    (w : WordBits) (h size : ℕ)
    → h < pow2 (bits w)
    → 0 < size
    → size < pow2 (bits w - 1)
    → ((h + size) % pow2 (bits w) + (pow2 (bits w) - size)) % pow2 (bits w) ≡ h
up_down w16 h size p q r = omega arith
up_down w32 h size p q r = omega arith
up_down w64 h size p q r = omega arith

step_back :
    (w : WordBits) (n : ℕ)
    → n < pow2 (bits w)
    → ((n + 1) % pow2 (bits w) + pow2 (bits w) - 1) % pow2 (bits w) ≡ n
step_back w16 n p = omega arith
step_back w32 n p = omega arith
step_back w64 n p = omega arith

module _ (w : WordBits) (size : ℕ) (p : 0 < size) (q : size < pow2 (bits w - 1)) where
  small_tests : ((size == 0) ≡ false) × (ltb size (pow2 (bits w - 1)) ≡ true)
  small_tests = (ground arith, ground arith)

  -- the account is what it was after a size is added and taken away
  account_back :
      (s : Memory)
      → IsAccount w s
      → let s' = update_heap_allocation w (neg_word w size) (update_heap_allocation w size s) in
        (s'.heap_allocation_size ≡ s.heap_allocation_size)
        × (s'.heap_allocated_blocks ≡ s.heap_allocated_blocks)
  unfolding update_heap_allocation
  account_back s (a, b) =
      let (z, big, e) = neg_word-large w size p q in
      let (n, lt) = small_tests in
      rw (z, big, n, lt, e)
        (up_down w s.heap_allocation_size size a p q, step_back w s.heap_allocated_blocks b)

overwrite_new :
    (b c : Block) (y : ℕ) (o : Option Block)
    → b.ptr ≡ c.ptr
    → overwritten b y (if c.ptr == y then some c else o) ≡ (if c.ptr == y then some b else o)
overwrite_new b c y none e = ground arith
overwrite_new b c y (some d) e = ground arith

pub overwritten_self : (b c : Block) → overwritten b b.ptr (some c) ≡ some b
overwritten_self b c = ground arith

pub overwrite_gone :
    (b c : Block) (y : ℕ) (o : Option Block)
    → b.ptr ≡ c.ptr
    → (if c.ptr == y then none else overwritten b y o) ≡ (if c.ptr == y then none else o)
overwrite_gone b c y none e = ground arith
overwrite_gone b c y (some d) e = ground arith

module _ (w : WordBits) (res size : ℕ) (s : Memory) where
  store_freeable_fields :
      res ≢ 0
      → let s' = store_freeable_block w res size false s in
        (s'.root ≡ write_root (heap_block res size) (bt_insert w (new_block res size) s.root))
        × (s'.heap_allocation_size ≡ (update_heap_allocation w size s).heap_allocation_size)
        × (s'.heap_allocated_blocks ≡ (update_heap_allocation w size s).heap_allocated_blocks)
  unfolding store_freeable_block update_heap_allocation store_block
  store_freeable_fields n = let z : (res == 0) ≡ false = ground arith in rw z (refl, refl, refl)

  -- When the tree is a trie and the public allocator gives a word other than NULL that no tracked
  -- block starts at, `malloc` of a positive size returns it, the tree of the tracked blocks is a
  -- trie again, and it tracks a freeable block of the size at that address, with no byte
  -- initialized, and the same as before elsewhere; the account of the heap is updated by the size.
  pub malloc-tracks :
      IsTrie w s.root
      → res ≢ 0
      → res < pow2 (bits w)
      → tracked_root s.root res ≡ none
      → 0 < size
      → (s' : Memory) × (malloc w res size s ≡ (res, s'))
        × IsTrie w s'.root
        × ((y : ℕ)
            → tracked_root s'.root y
              ≡ (if res == y then some (heap_block res size) else tracked_root s.root y))
        × (s'.heap_allocation_size ≡ (update_heap_allocation w size s).heap_allocation_size)
        × (s'.heap_allocated_blocks ≡ (update_heap_allocation w size s).heap_allocated_blocks)
  unfolding malloc
  malloc-tracks h n p fresh pos =
      let s' = store_freeable_block w res size false s in
      let (e, hs, hb) = store_freeable_fields n in
      let z : (size == 0) ≡ false = ground arith in
      let (h', tr) = bt_insert-root w (new_block res size) s.root h p fresh in
      let h'' =
        write_root-IsTrie w (heap_block res size) (bt_insert w (new_block res size) s.root) h' in
      (
        s',
        rw z refl,
        rw e h'',
        λ y.
            ap (λ (r : Root). tracked_root r y) e
            ∙ tracked-write_root (heap_block res size) (bt_insert w (new_block res size) s.root) y
            ∙ ap (overwritten (heap_block res size) y) (tr y)
            ∙ overwrite_new (heap_block res size) (new_block res size) y (tracked_root s.root y)
                refl,
        hs,
        hb,
      )

module _ (w : WordBits) (ptr : ℕ) (s : Memory) where
  -- In a trie of words, when a tracked block starts at an address other than NULL, `free` returns,
  -- the tree of the tracked blocks is a trie again, it tracks no block at that address and the
  -- same ones elsewhere, and the account of the heap is updated by the opposite of the block's
  -- size.
  pub free-releases :
      (b : Block)
      → IsTrie w s.root
      → ptr ≢ 0
      → ptr < pow2 (bits w)
      → tracked_root s.root ptr ≡ some b
      → (s' : Memory) × (free w ptr s ≡ ok s')
        × IsTrie w s'.root
        × ((y : ℕ) → tracked_root s'.root y ≡ (if ptr == y then none else tracked_root s.root y))
        × (s'.heap_allocation_size
            ≡ (update_heap_allocation w (neg_word w b.size) s).heap_allocation_size)
        × (s'.heap_allocated_blocks
            ≡ (update_heap_allocation w (neg_word w b.size) s).heap_allocated_blocks)
  unfolding free update_heap_allocation
  free-releases b h n p e =
      let c = clean_block_init b in
      let here : b.ptr ≡ ptr = tracked_root-ptr s.root ptr b e in
      let z : (ptr == 0) ≡ false = ground arith in
      let now : tracked_root (write_root c s.root) c.ptr ≡ some c =
        tracked-write_root c s.root c.ptr
        ∙ ap (overwritten c c.ptr) (ap (tracked_root s.root) here ∙ e)
        ∙ overwritten_self c b in
      let (root, f, h', tr) =
        bt_remove-root w c (write_root c s.root) (write_root-IsTrie w c s.root h) (rw here p) now in
      (
        record (update_heap_allocation w (neg_word w b.size) s) { root = root },
        rw (z, bt_lookup-root w s.root ptr b h p e, f) refl,
        h',
        λ y.
            tr y
            ∙ ap (λ (o : Option Block). if c.ptr == y then none else o)
                (tracked-write_root c s.root y)
            ∙ overwrite_gone c c y (tracked_root s.root y) refl
            ∙ ap (λ (q : ℕ). if q == y then none else tracked_root s.root y) here,
        refl,
        refl,
      )

-- In a trie of words that is not empty, `free` at a word other than NULL where no tracked block
-- starts aborts.
pub free-untracked :
    (w : WordBits) (ptr : ℕ) (s : Memory)
    → IsTrie w s.root
    → s.root ≢ none
    → ptr ≢ 0
    → ptr < pow2 (bits w)
    → tracked_root s.root ptr ≡ none
    → free w ptr s ≡ abort
unfolding free
free-untracked w ptr s h full n p e =
    let z : (ptr == 0) ≡ false = ground arith in
    rw (z, bt_lookup-missing w s.root ptr h full p e) refl

pub own : (x : ℕ) (b : Block) (o : Option Block) → (if x == x then some b else o) ≡ some b
own x b o = ground arith

pub gone :
    (root : Root) (x y : ℕ) (b : Block)
    → tracked_root root x ≡ none
    → (if x == y then none else (if x == y then some b else tracked_root root y))
      ≡ tracked_root root y
gone root x y b e = elim (Bool-cases (x == y)) [
  | inl q ↦ let same : x ≡ y = ground arith in rw q (sym (sym (ap (tracked_root root) same) ∙ e))
  | inr q ↦ rw q refl
]

module _ (w : WordBits) (v : ℕ) (s s' : Memory) where
  same_size :
      s.heap_allocation_size ≡ s'.heap_allocation_size
      → (update_heap_allocation w v s).heap_allocation_size
        ≡ (update_heap_allocation w v s').heap_allocation_size
  unfolding update_heap_allocation
  same_size e = rw e refl

  same_blocks :
      s.heap_allocated_blocks ≡ s'.heap_allocated_blocks
      → (update_heap_allocation w v s).heap_allocated_blocks
        ≡ (update_heap_allocation w v s').heap_allocated_blocks
  unfolding update_heap_allocation
  same_blocks e = rw e refl

-- In a memory whose tree is a trie and whose account is of words, a `malloc` of a positive size
-- below half of the address space, at an address where no tracked block starts, and the `free` of
-- its result return, and then the same blocks are tracked as before and the account of the heap is
-- the same.
pub free-malloc :
    (w : WordBits) (res size : ℕ) (s : Memory)
    → IsTrie w s.root
    → IsAccount w s
    → res ≢ 0
    → res < pow2 (bits w)
    → tracked_root s.root res ≡ none
    → 0 < size
    → size < pow2 (bits w - 1)
    → (s' : Memory) × (s'' : Memory) × (malloc w res size s ≡ (res, s'))
      × (free w res s' ≡ ok s'')
      × IsTrie w s''.root
      × SameMemory w s s''
free-malloc w res size s h account n p fresh pos small =
    let (s', e, h', tr, hs, hb) = malloc-tracks w res size s h n p fresh pos in
    let b = heap_block res size in
    let now : tracked_root s'.root res ≡ some b = tr res ∙ own res b (tracked_root s.root res) in
    let (s'', e', h'', tr', hs', hb') = free-releases w res s' b h' n p now in
    let (back, back') = account_back w size pos small s account in
    (
      s',
      s'',
      e,
      e',
      h'',
      (
        λ y.
            tr' y
            ∙ ap (λ (o : Option Block). if res == y then none else o) (tr y)
            ∙ gone s.root res y b fresh,
        hs' ∙ same_size w (neg_word w size) s' (update_heap_allocation w size s) hs ∙ back,
        hb' ∙ same_blocks w (neg_word w size) s' (update_heap_allocation w size s) hb ∙ back',
      ),
    )
