-- ===== src/Mmodel/Steps.antt =====
-- The runs of a program over the memory model of bittree_model/e_acsl_bittree_mmodel.c: the calls
-- that the instrumentation makes one after another, on a tree that is empty at first.
use frama_c_snapshot.Prelude.{
  ℕ, ◌<◌, ◌≡◌, ◌≢◌, refl, sym, ap, ◌∙◌, arith, true, false, Option, none, some, ◌==◌, ◌⊎◌, inl, inr,
  Bool-cases, Option-cases, ltb, ◌-◌,
}
use frama_c_snapshot.Prelude.Bits.{pow2, pow2_pos}
use frama_c_snapshot.Prelude.Run.{Run, ok, abort, fault, ◌>>=◌}
use frama_c_snapshot.Bittree.Tables.{WordBits, bits}
use frama_c_snapshot.Bittree.Block.{Block, Root}
use frama_c_snapshot.Bittree.Trie.{bt_find, bt_lookup, bt_remove}
use frama_c_snapshot.Bittree.Trie.Remove.{IsTrie, tracked_root}
use frama_c_snapshot.Mmodel.Init.{initialize_block, full_init_block}
use frama_c_snapshot.Mmodel.Memory.{
  Memory, put, write_root, initialize, full_init, mark_readonly, clean_block_init,
  update_heap_allocation, neg_word,
}
use frama_c_snapshot.Mmodel.Memory.Write.{
  write_root-IsTrie, bt_insert-root, bt_remove-root, bt_lookup-root, bt_lookup-missing,
  tracked-write_root, tracked_root-ptr, overwritten,
}
use frama_c_snapshot.Mmodel.Alloc.{new_block, malloc, free, store_block, delete_block}
use frama_c_snapshot.Mmodel.Alloc.Heap.{IsAccount, overwritten_self, malloc-tracks, free-releases}

abbrev pub empty_memory : Memory
empty_memory = record { root = none; heap_allocation_size = 0; heap_allocated_blocks = 0 }

module _ (w : WordBits) where
  -- an address at which the system can put a new block
  abbrev pub IsFree : ℕ → Memory → Type 0
  IsFree ptr s = (ptr ≢ 0) × (ptr < pow2 (bits w)) × (tracked_root s.root ptr ≡ none)

  -- One call that returns. The public allocator and the compiler put blocks at free addresses.
  pub data Step (s s' : Memory) : Type 0 where
    allocates : (res size out : ℕ) → IsFree res s → malloc w res size s ≡ (out, s') → Step s s'
    frees : (ptr : ℕ) → ptr < pow2 (bits w) → free w ptr s ≡ ok s' → Step s s'
    stores :
        (ptr size : ℕ) (out : Option Block)
        → IsFree ptr s
        → store_block w ptr size s ≡ (out, s')
        → Step s s'
    deletes : (ptr : ℕ) → ptr < pow2 (bits w) → delete_block w ptr s ≡ ok s' → Step s s'
    initializes : (ptr size : ℕ) → initialize w ptr size s ≡ ok s' → Step s s'
    initializes_all : (ptr : ℕ) → full_init w ptr s ≡ ok s' → Step s s'
    protects : (ptr : ℕ) → mark_readonly w ptr s ≡ ok s' → Step s s'

  pub data Reach : Memory → Type 0 where
    start : Reach empty_memory
    next : {s s' : Memory} → Reach s → Step s s' → Reach s'

-- what every reachable memory satisfies
abbrev pub IsSound : WordBits → Memory → Type 0
IsSound w s = IsTrie w s.root × IsAccount w s

-- the memory in a result
result : Memory → Run Memory → Memory
result s (ok s') = s'
result s abort = s
result s fault = s

ok_same : (s s' : Memory) → ok s ≡ ok s' → s ≡ s'
unfolding result
ok_same s s' e = ap (result s) e

update_heap_allocation-IsAccount :
    (w : WordBits) (size : ℕ) (s : Memory)
    → IsAccount w s
    → IsAccount w (update_heap_allocation w size s)
unfolding update_heap_allocation
update_heap_allocation-IsAccount w size s (a, b) =
    let p = pow2_pos (bits w) in
    (
      omega arith,
      elim (Bool-cases (size == 0)) [
        | inl z ↦ rw z b
        | inr z ↦ elim (Bool-cases (ltb size (pow2 (bits w - 1)))) [
          | inl t ↦ rw (z, t) (omega arith)
          | inr t ↦ rw (z, t) (omega arith)
        ]
      ],
    )

-- The operations that change one block: the block found, if any, is replaced.
put_found :
    (w : WordBits) (found : Run (Option Block)) (change : Block → Run Block) (s s' : Memory)
    → (found >>= λ o. elim o [ none ↦ ok s | some b ↦ change b >>= λ b'. ok (put b' s) ]) ≡ ok s'
    → IsSound w s
    → IsSound w s'
put_found w abort change s s' e h = absurd (ground arith)
put_found w fault change s s' e h = absurd (ground arith)
put_found w (ok none) change s s' e h = rw (← ok_same s s' e) h
put_found w (ok (some b)) change s s' e h = changed (change b) e
  where
    changed : (r : Run Block) → (r >>= λ b'. ok (put b' s)) ≡ ok s' → IsSound w s'
    changed abort d = absurd (ground arith)
    changed fault d = absurd (ground arith)
    changed (ok b') d = rw (← ok_same (put b' s) s' d) (write_root-IsTrie w b' s.root (h.0), h.1)

-- a lookup where no tracked block starts
lookup_missing :
    (w : WordBits) (root : Root) (x : ℕ)
    → IsTrie w root
    → x < pow2 (bits w)
    → tracked_root root x ≡ none
    → (bt_lookup root x ≡ ok none) ⊎ (bt_lookup root x ≡ fault)
unfolding bt_lookup
lookup_missing w none x h p e = inr refl
lookup_missing w (some t) x h p e =
    inl (bt_lookup-missing w (some t) x h (λ q. absurd (ground arith)) p e)

-- the removal of a tracked block whose marks are dropped first
remove_tracked :
    (w : WordBits) (s : Memory) (ptr : ℕ) (b : Block)
    → IsTrie w s.root
    → ptr < pow2 (bits w)
    → tracked_root s.root ptr ≡ some b
    → (root : Root) × (bt_remove w b.ptr (write_root (clean_block_init b) s.root) ≡ ok root)
      × IsTrie w root
remove_tracked w s ptr b h p e =
    let c = clean_block_init b in
    let here : b.ptr ≡ ptr = tracked_root-ptr s.root ptr b e in
    let now : tracked_root (write_root c s.root) c.ptr ≡ some c =
      tracked-write_root c s.root c.ptr
      ∙ ap (overwritten c c.ptr) (ap (tracked_root s.root) here ∙ e)
      ∙ overwritten_self c b in
    let (root, f, trie, tr) =
      bt_remove-root w c (write_root c s.root) (write_root-IsTrie w c s.root h) (rw here p) now in
    (root, f, trie)

module _ (w : WordBits) (s s' : Memory) (h : IsSound w s) where
  malloc-IsSound :
      (res size out : ℕ) → IsFree w res s → malloc w res size s ≡ (out, s') → IsSound w s'
  unfolding malloc
  malloc-IsSound res size out (n, p, fresh) e = elim (Bool-cases (size == 0)) [
    | inl z ↦ let q : s ≡ s' = ap (λ (r : ℕ × Memory). r.1) (rw z at e) in rw (← q) h
    | inr z ↦
        let (t, e', trie, tr, hs, hb) = malloc-tracks w res size s (h.0) n p fresh (ground arith) in
        let q : t ≡ s' = ap (λ (r : ℕ × Memory). r.1) (sym e' ∙ e) in
        let account = update_heap_allocation-IsAccount w size s (h.1) in
        rw (← q) (trie, rw (hs, hb) account)
  ]

  free-IsSound : (ptr : ℕ) → ptr < pow2 (bits w) → free w ptr s ≡ ok s' → IsSound w s'
  unfolding free
  free-IsSound ptr p e = elim (Bool-cases (ptr == 0)) [
    | inl z ↦ rw (← ok_same s s' (rw z at e)) h
    | inr z ↦ elim (Option-cases (tracked_root s.root ptr)) [
      | inl missing ↦ elim (lookup_missing w s.root ptr (h.0) p missing) [
        | inl l ↦ absurd (let e' = rw (z, l) at e in ground arith)
        | inr l ↦ absurd (let e' = rw (z, l) at e in ground arith)
      ]
      | inr (b, here) ↦
          let n : ptr ≢ 0 = λ q. absurd (ground arith) in
          let (t, e', trie, tr, hs, hb) = free-releases w ptr s b (h.0) n p here in
          let q = ok_same t s' (sym e' ∙ e) in
          let account = update_heap_allocation-IsAccount w (neg_word w b.size) s (h.1) in
          rw (← q) (trie, rw (hs, hb) account)
    ]
  ]

  store_block-IsSound :
      (ptr size : ℕ) (out : Option Block)
      → IsFree w ptr s
      → store_block w ptr size s ≡ (out, s')
      → IsSound w s'
  unfolding store_block
  store_block-IsSound ptr size out (n, p, fresh) e =
      let z : (ptr == 0) ≡ false = ground arith in
      let q = ap (λ (r : Option Block × Memory). r.1) (rw z at e) in
      rw (← q) ((bt_insert-root w (new_block ptr size) s.root (h.0) p fresh).0, h.1)

  delete_block-IsSound :
      (ptr : ℕ) → ptr < pow2 (bits w) → delete_block w ptr s ≡ ok s' → IsSound w s'
  unfolding delete_block
  delete_block-IsSound ptr p e = elim (Bool-cases (ptr == 0)) [
    | inl z ↦ rw (← ok_same s s' (rw z at e)) h
    | inr z ↦ elim (Option-cases (tracked_root s.root ptr)) [
      | inl missing ↦ elim (lookup_missing w s.root ptr (h.0) p missing) [
        | inl l ↦ rw (← ok_same s s' (rw (z, l) at e)) h
        | inr l ↦ absurd (let e' = rw (z, l) at e in ground arith)
      ]
      | inr (b, here) ↦
          let (root, f, trie) = remove_tracked w s ptr b (h.0) p here in
          let found = bt_lookup-root w s.root ptr b (h.0) p here in
          let q = ok_same (record s { root = root }) s' (rw (z, found, f) at e) in
          rw (← q) (trie, h.1)
    ]
  ]

  initialize-IsSound : (ptr size : ℕ) → initialize w ptr size s ≡ ok s' → IsSound w s'
  unfolding initialize
  initialize-IsSound ptr size e = elim (Bool-cases (ptr == 0)) [
    | inl z ↦ rw (← ok_same s s' (rw z at e)) h
    | inr z ↦
        put_found w (bt_find w s.root ptr) (λ b. initialize_block (ptr - b.ptr) size b) s s'
          (rw z at e) h
  ]

  full_init-IsSound : (ptr : ℕ) → full_init w ptr s ≡ ok s' → IsSound w s'
  unfolding full_init
  full_init-IsSound ptr e = elim (Bool-cases (ptr == 0)) [
    | inl z ↦ rw (← ok_same s s' (rw z at e)) h
    | inr z ↦ put_found w (bt_lookup s.root ptr) (λ b. ok (full_init_block b)) s s' (rw z at e) h
  ]

  mark_readonly-IsSound : (ptr : ℕ) → mark_readonly w ptr s ≡ ok s' → IsSound w s'
  unfolding mark_readonly
  mark_readonly-IsSound ptr e = elim (Bool-cases (ptr == 0)) [
    | inl z ↦ rw (← ok_same s s' (rw z at e)) h
    | inr z ↦
        put_found w (bt_lookup s.root ptr) (λ b. ok (record b { is_readonly = true })) s s'
          (rw z at e) h
  ]

  Step-IsSound : Step w s s' → IsSound w s'
  Step-IsSound (allocates res size out free e) = malloc-IsSound res size out free e
  Step-IsSound (frees ptr p e) = free-IsSound ptr p e
  Step-IsSound (stores ptr size out free e) = store_block-IsSound ptr size out free e
  Step-IsSound (deletes ptr p e) = delete_block-IsSound ptr p e
  Step-IsSound (initializes ptr size e) = initialize-IsSound ptr size e
  Step-IsSound (initializes_all ptr e) = full_init-IsSound ptr e
  Step-IsSound (protects ptr e) = mark_readonly-IsSound ptr e

-- In every memory that a program reaches from the empty one, by calls that return of `malloc`,
-- `free`, `store_block`, `delete_block`, `initialize`, `full_init` and `mark_readonly`, with new
-- blocks at words other than NULL where no tracked block starts, the tree is a trie, and the two
-- counts of the heap are words.
pub Reach-IsSound : (w : WordBits) {s : Memory} → Reach w s → IsSound w s
Reach-IsSound w start = (tt, (pow2_pos (bits w), pow2_pos (bits w)))
Reach-IsSound w (next {s} {s'} r st) = Step-IsSound w s s' (Reach-IsSound w r) st
