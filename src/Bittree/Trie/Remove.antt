-- ===== src/Bittree/Trie/Remove.antt =====
-- `bt_remove` keeps the trie's shape and takes one block away from those that are tracked.
use frama_c_snapshot.Prelude.{
  ℕ, suc, ◌+◌, ◌*◌, ◌<◌, ◌≤◌, ◌≡◌, refl, sym, Option, none, some, arith, ◌==◌, if◌then◌else◌, inl,
  inr, Bool-cases, [], ◌∷◌,
}
use frama_c_snapshot.Prelude.Bits.{shr, pow2}
use frama_c_snapshot.Bittree.Tables.{WordBits, bits}
use frama_c_snapshot.Bittree.Mask.{mask_of}
use frama_c_snapshot.Bittree.Block.{Block, Node, inner, Root, Side, left, right, Way}
use frama_c_snapshot.Bittree.Trie.{same_prefix}
use frama_c_snapshot.Bittree.Trie.Shape.{Under, Trie, tip, fork, addr-Under}
use frama_c_snapshot.Bittree.Trie.Lookup.{tracked, tracked_elsewhere, tracked_off, shr_of_same}
use frama_c_snapshot.Bittree.Trie.Insert.{fresh_at}
use frama_c_snapshot.Bittree.Trie.Join.{width-le_of_Under, children_mask}
use frama_c_snapshot.Prelude.Run.{ok}
use frama_c_snapshot.Bittree.Trie.{leaf_from_block, grandparent_mask, remove_at, bt_remove}

-- what is tracked, but for one address
abbrev pub without : ℕ → Node → ℕ → Option Block
without x t y = if x == y then none else tracked t y

-- What taking the leaf of the block at `x` out of a trie does, by the way to that leaf.
data Outcome (w : WordBits) (t : Node) (x : ℕ) : Way → Type 0 where
  emptied : remove_at w [] t ≡ none → ((y : ℕ) → without x t y ≡ none) → Outcome w t x []
  reduced :
      (d : Side) (p : Way) (t' : Node) (i : ℕ)
      → remove_at w (d ∷ p) t ≡ some t'
      → Trie w i t'
      → ((k c : ℕ) → Under k c t → Under k c t')
      → ((y : ℕ) → tracked t' y ≡ without x t y)
      → Outcome w t x (d ∷ p)

-- Computed again or not, the mask over the changed children is the old one.
grandparent_mask_same :
    {w : WordBits} {k i j : ℕ} (a m : ℕ) {l r : Node} (p : Way)
    → suc k ≤ bits w
    → m ≡ mask_of w (suc k)
    → Trie w i l
    → Trie w j r
    → i ≤ k
    → j ≤ k
    → Under k (2 * shr a (suc k)) l
    → Under k (2 * shr a (suc k) + 1) r
    → grandparent_mask w p m l r ≡ mask_of w (suc k)
grandparent_mask_same a m [] n hm hl hr il jr u v = children_mask a n hl hr il jr u v
grandparent_mask_same a m (_ ∷ _) n hm hl hr il jr u v = hm

module _ {w : WordBits} {k i j a m : ℕ} {l r : Node} (n : suc k ≤ bits w) (ha : a < pow2 (bits w))
    (hm : m ≡ mask_of w (suc k)) (il : i ≤ k) (jr : j ≤ k) (u : Under k (2 * shr a (suc k)) l)
    (v : Under k (2 * shr a (suc k) + 1) r) (hl : Trie w i l) (hr : Trie w j r) (x : ℕ) where
  from_right :
      (p : Way) → tracked l x ≡ none → Outcome w r x p → Outcome w (inner a m l r) x (right ∷ p)
  unfolding remove_at tracked
  from_right [] off (emptied e gone) =
      reduced right [] l i refl hl (λ k c z. z.1) (λ y. ground (arith, gone y, fresh_at l x y off))
  from_right (_ ∷ _) off (reduced d p r' i' e h' up tr) =
      let m' = grandparent_mask w p m l r' in
      let v' = up k (2 * shr a (suc k) + 1) v in
      let j' = width-le_of_Under k (2 * shr a (suc k) + 1) h' v' in
      let q : m' ≡ mask_of w (suc k) = grandparent_mask_same a m p n hm hl h' il j' u v' in
      reduced right (d ∷ p) (inner a m' l r') (suc k) (rw (e, remove_at))
        (fork n ha q il j' u v' hl h') (λ k c z. (z.0, z.1, up k c z.2))
        (λ y. ground (arith, tr y, fresh_at l x y off))

  from_left :
      (p : Way) → tracked r x ≡ none → Outcome w l x p → Outcome w (inner a m l r) x (left ∷ p)
  unfolding remove_at tracked
  from_left [] off (emptied e gone) =
      reduced left [] r j refl hr (λ k c z. z.2) (λ y. ground (arith, gone y, fresh_at r x y off))
  from_left (_ ∷ _) off (reduced d p l' i' e h' up tr) =
      let m' = grandparent_mask w p m l' r in
      let u' = up k (2 * shr a (suc k)) u in
      let i'' = width-le_of_Under k (2 * shr a (suc k)) h' u' in
      let q : m' ≡ mask_of w (suc k) = grandparent_mask_same a m p n hm h' hr i'' jr u' v in
      reduced left (d ∷ p) (inner a m' l' r) (suc k) (rw (e, remove_at))
        (fork n ha q i'' jr u' v h' hr) (λ k c z. (z.0, up k c z.1, z.2))
        (λ y. ground (arith, tr y, fresh_at r x y off))

-- The leaf of a tracked block is reached, and taking it out has the outcome that it should.
find_leaf :
    {w : WordBits} {j : ℕ} {t : Node} (x : ℕ) (b : Block)
    → Trie w j t
    → x < pow2 (bits w)
    → tracked t x ≡ some b
    → (p : Way) × (leaf_from_block t x ≡ some p) × Outcome w t x p
unfolding leaf_from_block tracked remove_at
find_leaf x b (tip {b = d} _ _ _) p h = ([], refl, emptied refl (λ y. ground arith))
find_leaf {w} x b (fork {k = k} {a = a} {m = m} {l = l} {r = r} n ha hm il jr u v hl hr) p h =
    elim (Bool-cases (same_prefix r x)) [
      | inl s ↦
          let y = shr_of_same k x hr p jr s in
          let z = addr-Under k (2 * shr a (suc k) + 1) r v in
          let off = tracked_elsewhere k (2 * shr a (suc k)) x hl u (λ e. absurd (omega arith)) in
          let (way, e, o) = find_leaf x b hr p (rw (off, tracked) at h) in
          (right ∷ way, rw (s, leaf_from_block, e), from_right n ha hm il jr u v hl hr x way off o)
      | inr s ↦
          let off = tracked_off x hr p s in
          let near : tracked l x ≡ some b = ground arith in
          elim (Bool-cases (same_prefix l x)) [
            | inr q ↦ absurd (let z = tracked_off x hl p q in ground arith)
            | inl q ↦
                let (way, e, o) = find_leaf x b hl p near in
                (
                  left ∷ way,
                  rw (s, leaf_from_block, q, e),
                  from_left n ha hm il jr u v hl hr x way off o,
                )
          ]
    ]

-- what a root tracks
abbrev pub tracked_root : Root → ℕ → Option Block
tracked_root none y = none
tracked_root (some t) y = tracked t y

abbrev pub IsTrie : WordBits → Root → Type 0
IsTrie w none = Unit
IsTrie w (some t) = (j : ℕ) × Trie w j t

after_remove :
    {w : WordBits} {t : Node} {x : ℕ} (p : Way)
    → Outcome w t x p
    → IsTrie w (remove_at w p t) × ((y : ℕ) → tracked_root (remove_at w p t) y ≡ without x t y)
after_remove [] (emptied e gone) = rw e (tt, λ y. sym (gone y))
after_remove (_ ∷ _) (reduced d p t' i e h up tr) = rw e ((i, h), tr)

-- On a trie of words that tracks a block at an address, `bt_remove` returns, the tree that is left
-- is a trie again, and it tracks no block at that address and the same ones elsewhere.
pub bt_remove-Trie :
    (w : WordBits) (j : ℕ) (t : Node) (x : ℕ) (b : Block)
    → Trie w j t
    → x < pow2 (bits w)
    → tracked t x ≡ some b
    → (root : Root) × (bt_remove w x (some t) ≡ ok root)
      × IsTrie w root
      × ((y : ℕ) → tracked_root root y ≡ (if x == y then none else tracked t y))
unfolding bt_remove
bt_remove-Trie w j t x b h p e =
    let (way, f, o) = find_leaf x b h p e in
    let (shape, tr) = after_remove way o in (remove_at w way t, rw (f, bt_remove), shape, tr)
