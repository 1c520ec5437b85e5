-- ===== src/Mmodel/Alloc/Stack.antt =====
-- `store_block` and `delete_block`, which follow the blocks that are not on the heap.
use frama_c_snapshot.Prelude.{
  ℕ, ◌<◌, ◌≡◌, ◌≢◌, refl, ap, ◌∙◌, false, Option, none, some, arith, ◌==◌, if◌then◌else◌,
}
use frama_c_snapshot.Prelude.Bits.{pow2}
use frama_c_snapshot.Prelude.Run.{ok}
use frama_c_snapshot.Bittree.Tables.{WordBits, bits}
use frama_c_snapshot.Bittree.Block.{Block}
use frama_c_snapshot.Bittree.Trie.{bt_insert}
use frama_c_snapshot.Bittree.Trie.Remove.{IsTrie, tracked_root}
use frama_c_snapshot.Mmodel.Memory.{Memory, write_root, clean_block_init}
use frama_c_snapshot.Mmodel.Memory.Write.{
  overwritten, write_root-IsTrie, bt_insert-root, bt_remove-root, bt_lookup-root,
  tracked-write_root,
}
use frama_c_snapshot.Mmodel.Alloc.{new_block, store_block, delete_block}
use frama_c_snapshot.Mmodel.Alloc.Heap.{SameMemory, overwrite_gone, overwritten_self, gone, own}

-- In a trie of words, at an address other than NULL where no tracked block starts, `store_block`
-- tracks a block, whose `delete_block` returns; then the same blocks are tracked as before, in a
-- trie again, and the heap account is the same.
pub delete_block-store_block :
    (w : WordBits) (ptr size : ℕ) (s : Memory)
    → IsTrie w s.root
    → ptr ≢ 0
    → ptr < pow2 (bits w)
    → tracked_root s.root ptr ≡ none
    → (s' : Memory) × (s'' : Memory) × (store_block w ptr size s ≡ (some (new_block ptr size), s'))
      × (tracked_root s'.root ptr ≡ some (new_block ptr size))
      × (delete_block w ptr s' ≡ ok s'')
      × IsTrie w s''.root
      × SameMemory w s s''
unfolding store_block delete_block
delete_block-store_block w ptr size s h n p fresh =
    let b = new_block ptr size in
    let z : (ptr == 0) ≡ false = ground arith in
    let root' = bt_insert w b s.root in
    let (h', tr) = bt_insert-root w b s.root h p fresh in
    let now : tracked_root root' ptr ≡ some b = tr ptr ∙ own ptr b (tracked_root s.root ptr) in
    let c = clean_block_init b in
    let cleaned : tracked_root (write_root c root') ptr ≡ some c =
      tracked-write_root c root' ptr ∙ ap (overwritten c ptr) now ∙ overwritten_self c b in
    let (root'', f, h'', tr') =
      bt_remove-root w c (write_root c root') (write_root-IsTrie w c root' h') p cleaned in
    (
      record s { root = root' },
      record s { root = root'' },
      rw z refl,
      now,
      rw (z, bt_lookup-root w root' ptr b h' p now, f) refl,
      h'',
      (
        (λ y.
            tr' y
            ∙ ap (λ (o : Option Block). if ptr == y then none else o) (tracked-write_root c root' y)
            ∙ overwrite_gone c c y (tracked_root root' y) refl
            ∙ ap (λ (o : Option Block). if ptr == y then none else o) (tr y)
            ∙ gone s.root ptr y b fresh),
        refl,
        refl,
      ),
    )
