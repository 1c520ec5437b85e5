-- ===== src/Bittree/Trie/Insert.antt =====
-- `bt_insert` keeps the trie's shape and adds its block to those that are tracked.
use frama_c_snapshot.Prelude.{
  ℕ, suc, ◌+◌, ◌*◌, ◌<◌, ◌≡◌, ◌≢◌, refl, ◌∙◌, Bool, true, none, some, arith, leb, ltb, ◌==◌,
  if◌then◌else◌, inl, inr, Bool-cases, bit_and,
}
use frama_c_snapshot.Prelude.Bits.{shr, pow2, shr-bit_and, bit_and_self}
use frama_c_snapshot.Bittree.Tables.{WordBits, bits}
use frama_c_snapshot.Bittree.Mask.{mask}
use frama_c_snapshot.Bittree.Block.{Block, Node, leaf, inner, addr_of}
use frama_c_snapshot.Bittree.Trie.{
  prefix, bt_most_similar_node, refresh_mask, new_parent, replace_at, is_root, bt_insert,
}
use frama_c_snapshot.Bittree.Trie.Shape.{Under, Trie, tip, fork, addr-Under}
use frama_c_snapshot.Bittree.Trie.Lookup.{tracked}
use frama_c_snapshot.Bittree.Trie.Join.{width-le_of_Under, refresh_mask_same, new_parent-Trie}
use frama_c_snapshot.Bittree.Trie.Similar.{goes_left, goes_right, goes_stay}

fresh_parts :
    (a m x : ℕ) (l r : Node)
    → tracked (inner a m l r) x ≡ none
    → (tracked l x ≡ none) × (tracked r x ≡ none)
unfolding tracked
fresh_parts a m x l r h = ground arith

pub fresh_at : (t : Node) (x y : ℕ) → tracked t x ≡ none → (x == y) ≡ true → tracked t y ≡ none
fresh_at t x y h e = let q : x ≡ y = ground arith in rw q at h

module _ (w : WordBits) (b : Block) where
  -- the tree that `bt_insert` makes, with either way to compute the mask
  abbrev inserted : Bool → Node → Node
  inserted at_root t = replace_at (bt_most_similar_node w t b.ptr) (new_parent w at_root b) t

  Under-new_parent :
      (at_root : Bool) (k c : ℕ) (t : Node)
      → refresh_mask w t ≡ t
      → Under k c t
      → shr b.ptr k ≡ c
      → Under k c (new_parent w at_root b t)
  unfolding new_parent
  Under-new_parent at_root k c t same u e =
      let f = addr-Under k c t u in
      let g : shr (bit_and (addr_of t) b.ptr) k ≡ c =
        shr-bit_and (addr_of t) b.ptr k ∙ rw (f, e) (bit_and_self c) in
      elim (Bool-cases (leb b.ptr (addr_of t))) [
        | inl below ↦ rw (below, new_parent, same) (g, e, u)
        | inr over ↦ rw (over, new_parent, same) (g, u, e)
      ]

  -- insertion keeps the addresses of a trie under a prefix of the new address
  Under-inserted :
      {j : ℕ} {t : Node} (at_root : Bool) (k c : ℕ)
      → Trie w j t
      → Under k c t
      → shr b.ptr k ≡ c
      → Under k c (inserted at_root t)
  unfolding bt_most_similar_node replace_at
  Under-inserted at_root k c (tip {a = a} {m = m} {b = d} x y z) u e =
      Under-new_parent at_root k c (leaf a m d) (refresh_mask_same (tip x y z)) u e
  Under-inserted at_root k c (fork {a = a} {m = m} {l = l} {r = r} n ha hm il jr lu rv hl hr) u e =
      elim (Bool-cases (ltb (mask w (prefix r) b.ptr) (mask w (prefix l) b.ptr))) [
        | inl x ↦
            rw (x, bt_most_similar_node, replace_at) (u.0, Under-inserted at_root k c hl u.1 e, u.2)
        | inr x ↦ elim (Bool-cases (ltb (mask w (prefix l) b.ptr) (mask w (prefix r) b.ptr))) [
          | inl y ↦
              rw (x, bt_most_similar_node, y, replace_at)
                (u.0, u.1, Under-inserted at_root k c hr u.2 e)
          | inr y ↦
              rw (x, bt_most_similar_node, y, replace_at)
                (Under-new_parent at_root k c (inner a m l r)
                  (refresh_mask_same (fork n ha hm il jr lu rv hl hr)) u e)
        ]
      ]

  -- what is tracked after `new_parent`
  tracked-new_parent :
      (at_root : Bool) (t : Node) (y : ℕ)
      → refresh_mask w t ≡ t
      → tracked t b.ptr ≡ none
      → tracked (new_parent w at_root b t) y ≡ (if b.ptr == y then some b else tracked t y)
  unfolding new_parent tracked
  tracked-new_parent at_root t y same fresh = elim (Bool-cases (leb b.ptr (addr_of t))) [
    | inl below ↦ rw (below, new_parent, same) (ground arith)
    | inr over ↦ rw (over, new_parent, same) (ground (arith, fresh_at t b.ptr y fresh))
  ]

  tracked-inserted :
      {j : ℕ} {t : Node} (at_root : Bool) (y : ℕ)
      → Trie w j t
      → tracked t b.ptr ≡ none
      → tracked (inserted at_root t) y ≡ (if b.ptr == y then some b else tracked t y)
  unfolding bt_most_similar_node replace_at tracked
  tracked-inserted at_root y (tip {a = a} {m = m} {b = d} p q r) fresh =
      tracked-new_parent at_root (leaf a m d) y (refresh_mask_same (tip p q r)) fresh
  tracked-inserted at_root y (fork {a = a} {m = m} {l = l} {r = r} n ha hm il jr lu rv hl hr)
        fresh =
      let (fl, fr) = fresh_parts a m b.ptr l r fresh in
      elim (Bool-cases (ltb (mask w (prefix r) b.ptr) (mask w (prefix l) b.ptr))) [
        | inl x ↦
            rw (x, bt_most_similar_node, replace_at, tracked, tracked-inserted at_root y hl fl)
              (ground arith)
        | inr x ↦ elim (Bool-cases (ltb (mask w (prefix l) b.ptr) (mask w (prefix r) b.ptr))) [
          | inl z ↦
              rw (x, bt_most_similar_node, z, replace_at, tracked)
                (ground (arith, fresh_at l b.ptr y fl, tracked-inserted at_root y hr fr))
          | inr z ↦
              rw (x, bt_most_similar_node, z, replace_at)
                (tracked-new_parent at_root (inner a m l r) y
                  (refresh_mask_same (fork n ha hm il jr lu rv hl hr)) fresh)
        ]
      ]

  inserted-Trie :
      {j : ℕ} {t : Node} (at_root : Bool)
      → Trie w j t
      → b.ptr < pow2 (bits w)
      → tracked t b.ptr ≡ none
      → (i : ℕ) × Trie w i (inserted at_root t)
  unfolding bt_most_similar_node replace_at tracked
  inserted-Trie at_root (tip {a = a} {m = m} {b = d} x y z) p fresh =
      new_parent-Trie at_root b (tip x y z) p (λ e. ground arith)
  inserted-Trie at_root (fork {k = k} {a = a} {m = m} {l = l} {r = r} n ha hm il jr lu rv hl hr) p
        fresh =
      let (fl, fr) = fresh_parts a m b.ptr l r fresh in
      let x = b.ptr in
      elim (Bool-cases (shr a (suc k) == shr x (suc k))) [
        | inr far ↦
            let apart : shr a (suc k) ≢ shr x (suc k) = ground arith in
            rw (goes_stay w a x l r n p hl hr il jr lu rv m apart)
              (new_parent-Trie at_root b (fork n ha hm il jr lu rv hl hr) p apart)
        | inl near ↦ elim (Bool-cases (shr x k == 2 * shr a (suc k))) [
          | inl e ↦
              let q : shr x k ≡ 2 * shr a (suc k) = ground arith in
              let (i', h') = inserted-Trie at_root hl p fl in
              let u' = Under-inserted at_root k (2 * shr a (suc k)) hl lu q in
              rw (goes_left w a x l r n p hl hr il jr lu rv m q)
                (suc k, fork n ha hm (width-le_of_Under k (2 * shr a (suc k)) h' u') jr u' rv h' hr)
          | inr e ↦
              let q : shr x k ≡ 2 * shr a (suc k) + 1 = ground arith in
              let (j', h') = inserted-Trie at_root hr p fr in
              let u' = Under-inserted at_root k (2 * shr a (suc k) + 1) hr rv q in
              rw (goes_right w a x l r n p hl hr il jr lu rv m q) (
                suc k,
                fork n ha hm il (width-le_of_Under k (2 * shr a (suc k) + 1) h' u') lu u' hl h',
              )
        ]
      ]

-- On a trie of words that tracks no block at the new address, `bt_insert` makes a trie again, and
-- what it tracks at any address is the new block at its own address and the old one elsewhere.
pub bt_insert-Trie :
    (w : WordBits) (b : Block) (j : ℕ) (t : Node)
    → Trie w j t
    → b.ptr < pow2 (bits w)
    → tracked t b.ptr ≡ none
    → (i : ℕ) × (t' : Node) × (bt_insert w b (some t) ≡ some t')
      × Trie w i t'
      × ((y : ℕ) → tracked t' y ≡ (if b.ptr == y then some b else tracked t y))
unfolding bt_insert
bt_insert-Trie w b j t h p fresh =
    let at_root = is_root (bt_most_similar_node w t b.ptr) in
    let (i, h') = inserted-Trie w b at_root h p fresh in
    (i, inserted w b at_root t, refl, h', λ y. tracked-inserted w b at_root y h fresh)
