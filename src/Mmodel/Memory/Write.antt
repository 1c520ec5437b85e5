-- ===== src/Mmodel/Memory/Write.antt =====
-- What the operations of the trie do to the blocks that a root tracks: an assignment through a
-- `bt_block *`, an insertion and a removal.
use frama_c_snapshot.Prelude.{
  ℕ, ◌<◌, ◌≡◌, ◌≢◌, refl, Option, none, some, arith, ◌==◌, if◌then◌else◌, inl, inr, Bool-cases,
}
use frama_c_snapshot.Prelude.Bits.{pow2}
use frama_c_snapshot.Prelude.Run.{ok}
use frama_c_snapshot.Bittree.Tables.{WordBits, bits}
use frama_c_snapshot.Bittree.Block.{Block, Node, leaf, inner, Root}
use frama_c_snapshot.Bittree.Trie.{new_leaf, bt_insert, bt_remove, bt_lookup}
use frama_c_snapshot.Bittree.Trie.Shape.{Trie, tip, fork, Under}
use frama_c_snapshot.Bittree.Trie.Lookup.{tracked, tracked-ptr, bt_lookup-tracked}
use frama_c_snapshot.Bittree.Trie.Join.{new_leaf-Trie}
use frama_c_snapshot.Bittree.Trie.Insert.{bt_insert-Trie}
use frama_c_snapshot.Bittree.Trie.Remove.{IsTrie, tracked_root, bt_remove-Trie}
use frama_c_snapshot.Mmodel.Memory.{write_block, write_root}

-- what is tracked at `x` when the block that starts where `b` does is overwritten by `b`
abbrev pub overwritten : Block → ℕ → Option Block → Option Block
overwritten b x none = none
overwritten b x (some c) = if b.ptr == x then some b else some c

tracked-write_block :
    (b : Block) (t : Node) (x : ℕ) → tracked (write_block b t) x ≡ overwritten b x (tracked t x)
unfolding write_block tracked
tracked-write_block b (leaf a m c) x = ground arith
tracked-write_block b (inner a m l r) x =
    ground (arith, tracked-write_block b l x, tracked-write_block b r x)

Under-write_block : (b : Block) (k c : ℕ) (t : Node) → Under k c t → Under k c (write_block b t)
unfolding write_block
Under-write_block b k c (leaf a m d) u = elim (Bool-cases (d.ptr == b.ptr)) [
  | inl e ↦ rw e u
  | inr n ↦ rw n u
]
Under-write_block b k c (inner a m l r) u =
    (u.0, Under-write_block b k c l u.1, Under-write_block b k c r u.2)

write_block-Trie :
    {w : WordBits} {j : ℕ} {t : Node} (b : Block) → Trie w j t → Trie w j (write_block b t)
unfolding write_block
write_block-Trie b (tip {b = d} p q e) = elim (Bool-cases (d.ptr == b.ptr)) [
  | inl f ↦ rw f (tip p q (ground arith))
  | inr n ↦ rw n (tip p q e)
]
write_block-Trie b (fork {k = k} {a = a} {l = l} {r = r} p q m i j u v hl hr) =
    fork p q m i j (Under-write_block b k _ l u) (Under-write_block b k _ r v)
      (write_block-Trie b hl) (write_block-Trie b hr)

module _ (w : WordBits) where
  pub write_root-IsTrie : (b : Block) (root : Root) → IsTrie w root → IsTrie w (write_root b root)
  write_root-IsTrie b none h = tt
  write_root-IsTrie b (some t) h = (h.0, write_block-Trie b h.1)

  bt_insert-none : (b : Block) → bt_insert w b none ≡ some (new_leaf w b)
  unfolding bt_insert
  bt_insert-none b = refl

  pub bt_insert-root :
      (b : Block) (root : Root)
      → IsTrie w root
      → b.ptr < pow2 (bits w)
      → tracked_root root b.ptr ≡ none
      → IsTrie w (bt_insert w b root)
        × ((y : ℕ)
            → tracked_root (bt_insert w b root) y
              ≡ (if b.ptr == y then some b else tracked_root root y))
  unfolding tracked
  bt_insert-root b none h p fresh = rw (bt_insert-none b) ((0, new_leaf-Trie w b p), λ y. refl)
  bt_insert-root b (some t) h p fresh =
      let (i, t', e, h', tr) = bt_insert-Trie w b h.0 t h.1 p fresh in rw e ((i, h'), tr)

  pub bt_remove-root :
      (b : Block) (root : Root)
      → IsTrie w root
      → b.ptr < pow2 (bits w)
      → tracked_root root b.ptr ≡ some b
      → (root' : Root) × (bt_remove w b.ptr root ≡ ok root')
        × IsTrie w root'
        × ((y : ℕ) → tracked_root root' y ≡ (if b.ptr == y then none else tracked_root root y))
  bt_remove-root b none h p e = ground arith
  bt_remove-root b (some t) h p e = bt_remove-Trie w h.0 t b.ptr b h.1 p e

  pub bt_lookup-root :
      (root : Root) (x : ℕ) (b : Block)
      → IsTrie w root
      → x < pow2 (bits w)
      → tracked_root root x ≡ some b
      → bt_lookup root x ≡ ok (some b)
  bt_lookup-root none x b h p e = ground arith
  bt_lookup-root (some t) x b h p e = rw (bt_lookup-tracked w h.0 t x h.1 p, e) refl

  pub bt_lookup-missing :
      (root : Root) (x : ℕ)
      → IsTrie w root
      → root ≢ none
      → x < pow2 (bits w)
      → tracked_root root x ≡ none
      → bt_lookup root x ≡ ok none
  bt_lookup-missing none x h full p e = absurd (full refl)
  bt_lookup-missing (some t) x h full p e = rw (bt_lookup-tracked w h.0 t x h.1 p, e) refl

pub tracked-write_root :
    (b : Block) (root : Root) (x : ℕ)
    → tracked_root (write_root b root) x ≡ overwritten b x (tracked_root root x)
tracked-write_root b none x = refl
tracked-write_root b (some t) x = tracked-write_block b t x

pub tracked_root-ptr : (root : Root) (x : ℕ) (b : Block) → tracked_root root x ≡ some b → b.ptr ≡ x
tracked_root-ptr none x b h = ground arith
tracked_root-ptr (some t) x b h = tracked-ptr t x b h
