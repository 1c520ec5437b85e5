-- ===== src/Bittree/Trie/Similar.antt =====
-- Which way `bt_most_similar_node` goes: it compares two masks, and so the distances of the children.
use frama_c_snapshot.Prelude.{
  ℕ, suc, ◌+◌, ◌*◌, ◌<◌, ◌≤◌, ◌≡◌, ◌≢◌, ap, sym, ◌∙◌, true, false, arith, leb, ltb, ◌==◌, [], ◌∷◌,
}
use frama_c_snapshot.Prelude.Bits.{shr, pow2, shr_up, pow2_lt, pow2_mono}
use frama_c_snapshot.Bittree.Tables.{WordBits, bits}
use frama_c_snapshot.Bittree.Mask.{mask, mask_of}
use frama_c_snapshot.Bittree.Mask.Search.{diff, diff-le, leb-diff, mask-mask_of}
use frama_c_snapshot.Bittree.Block.{Node, inner, addr_of, left, right}
use frama_c_snapshot.Bittree.Trie.{prefix, bt_most_similar_node}
use frama_c_snapshot.Bittree.Trie.Shape.{Under, Trie, addr-Under, prefix-is_word, shr-prefix_of}

-- a mask is the longer the fewer digits it clears
ltb-mask_of :
    (w : WordBits) (i j : ℕ) → i ≤ bits w → j ≤ bits w → ltb (mask_of w i) (mask_of w j) ≡ ltb j i
ltb-mask_of w i j p q =
    let a = pow2_mono i (bits w) p in
    let b = pow2_mono j (bits w) q in ground (arith, pow2_lt i j, pow2_lt j i)

-- where the prefix of a child and a word begin to agree
pub diff_at :
    {w : WordBits} {j : ℕ} {t : Node} (d x : ℕ)
    → Trie w j t
    → x < pow2 (bits w)
    → j ≤ d
    → d ≤ bits w
    → leb (diff (bits w) (prefix t) x) d ≡ (shr (addr_of t) d == shr x d)
diff_at {w} {j} {t} d x h p jd dn =
    leb-diff (bits w) d (prefix t) x dn (prefix-is_word h) p
    ∙ ap (λ (z : ℕ). z == shr x d) (shr-prefix_of d h jd)

module _ (w : WordBits) {k i j : ℕ} (a x : ℕ) (l r : Node) (n : suc k ≤ bits w)
    (p : x < pow2 (bits w)) (hl : Trie w i l) (hr : Trie w j r) (il : i ≤ k) (jr : j ≤ k)
    (u : Under k (2 * shr a (suc k)) l) (v : Under k (2 * shr a (suc k) + 1) r) where
  abbrev dl : ℕ
  dl = diff (bits w) (prefix l) x

  abbrev dr : ℕ
  dr = diff (bits w) (prefix r) x

  -- the two comparisons of `bt_most_similar_node`
  left_test : ltb (mask w (prefix r) x) (mask w (prefix l) x) ≡ ltb dl dr
  left_test =
      rw
        (
          mask-mask_of w (prefix l) x (prefix-is_word hl) p,
          mask-mask_of w (prefix r) x (prefix-is_word hr) p,
        )
        (ltb-mask_of w dr dl (diff-le (bits w) (prefix r) x) (diff-le (bits w) (prefix l) x))

  right_test : ltb (mask w (prefix l) x) (mask w (prefix r) x) ≡ ltb dr dl
  right_test =
      rw
        (
          mask-mask_of w (prefix l) x (prefix-is_word hl) p,
          mask-mask_of w (prefix r) x (prefix-is_word hr) p,
        )
        (ltb-mask_of w dl dr (diff-le (bits w) (prefix l) x) (diff-le (bits w) (prefix r) x))

  -- at the digit where the children part
  left_at : leb dl k ≡ (2 * shr a (suc k) == shr x k)
  left_at =
      diff_at k x hl p il (omega arith)
      ∙ ap (λ (z : ℕ). z == shr x k) (addr-Under k (2 * shr a (suc k)) l u)

  right_at : leb dr k ≡ (2 * shr a (suc k) + 1 == shr x k)
  right_at =
      diff_at k x hr p jr (omega arith)
      ∙ ap (λ (z : ℕ). z == shr x k) (addr-Under k (2 * shr a (suc k) + 1) r v)

  -- above it the children agree
  above : (d : ℕ) → suc k ≤ d → d ≤ bits w → leb dl d ≡ leb dr d
  above d h q =
      let e : shr (addr_of l) (suc k) ≡ shr (addr_of r) (suc k) =
        omega
          (arith, addr-Under k (2 * shr a (suc k)) l u, addr-Under k (2 * shr a (suc k) + 1) r v) in
      diff_at d x hl p (omega arith) q
      ∙ ap (λ (z : ℕ). z == shr x d) (shr_up (addr_of l) (addr_of r) (suc k) d h e)
      ∙ sym (diff_at d x hr p (omega arith) q)

  -- a word outside of the node's prefix is equally far from both
  same_distance : shr a (suc k) ≢ shr x (suc k) → dl ≡ dr
  same_distance far =
      let a1 = left_at in
      let a2 = right_at in
      let b1 = diff-le (bits w) (prefix l) x in
      let b2 = diff-le (bits w) (prefix r) x in ground (arith, above dl, above dr)

  pub goes_left :
      (m : ℕ)
      → shr x k ≡ 2 * shr a (suc k)
      → bt_most_similar_node w (inner a m l r) x ≡ left ∷ bt_most_similar_node w l x
  unfolding bt_most_similar_node
  goes_left m e =
      let t : ltb dl dr ≡ true = ground (arith, left_at, right_at) in
      rw (left_test ∙ t, bt_most_similar_node)

  pub goes_right :
      (m : ℕ)
      → shr x k ≡ 2 * shr a (suc k) + 1
      → bt_most_similar_node w (inner a m l r) x ≡ right ∷ bt_most_similar_node w r x
  unfolding bt_most_similar_node
  goes_right m e =
      let t : ltb dl dr ≡ false = ground (arith, left_at, right_at) in
      let s : ltb dr dl ≡ true = ground (arith, left_at, right_at) in
      rw (left_test ∙ t, bt_most_similar_node, right_test ∙ s)

  pub goes_stay :
      (m : ℕ) → shr a (suc k) ≢ shr x (suc k) → bt_most_similar_node w (inner a m l r) x ≡ []
  unfolding bt_most_similar_node
  goes_stay m far =
      let e = same_distance far in
      let t : ltb dl dr ≡ false = ground arith in
      let s : ltb dr dl ≡ false = ground arith in
      rw (left_test ∙ t, bt_most_similar_node, right_test ∙ s)
