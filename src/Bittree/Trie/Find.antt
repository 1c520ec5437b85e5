-- ===== src/Bittree/Trie/Find.antt =====
-- `bt_find` finds the block with the greatest start at or below an address, and tells whether it
-- contains the address.
use frama_c_snapshot.Prelude.{
  ℕ, zero, suc, ◌+◌, ◌*◌, ◌<◌, ◌≤◌, ◌≡◌, ◌≢◌, refl, ap, sym, ◌∙◌, true, false, Option, none, some,
  arith, ◌==◌, inl, inr, Bool-cases,
}
use frama_c_snapshot.Prelude.Bits.{shr, pow2, shr_up_le}
use frama_c_snapshot.Bittree.Tables.{WordBits, bits}
use frama_c_snapshot.Bittree.Block.{Block, Node, leaf, inner, Root, addr_of}
use frama_c_snapshot.Bittree.Trie.Shape.{Trie, tip, fork, addr-Under, Trie-Under, prefix_below-shr}
use frama_c_snapshot.Prelude.Run.{Run, ok}
use frama_c_snapshot.Bittree.Trie.{prefix_below, find_loop, node_count, bt_find}
use frama_c_snapshot.Bittree.Trie.Below.{
  later-none, last_below, containing, found_at, EndsInside, found_at-containing, or_else,
  or_else-none, none_below, some_below, later_right,
}

-- what the other choice adds
abbrev other_below : Root → ℕ → Option Block
other_below none x = none
other_below (some o) x = last_below o x

abbrev RootTrie : WordBits → Root → Type 0
RootTrie w none = Unit
RootTrie w (some o) = (i : ℕ) × Trie w i o

abbrev root_count : Root → ℕ
root_count none = 0
root_count (some o) = node_count o

-- With another choice at hand a leaf is visited only if it starts at or below the address.
abbrev IsReady : Node → Root → ℕ → Type 0
IsReady t none x = Unit
IsReady (leaf a m b) (some o) x = a ≤ x
IsReady (inner a m l r) (some o) x = Unit

abbrev jump_to : WordBits → ℕ → ℕ → Root → Run (Option Block)
jump_to w fuel x other = elim other [ none ↦ ok none | some o ↦ find_loop w fuel o none x ]

absorb : (r l o : Option Block) (b : Block) → l ≡ some b → or_else r l ≡ or_else (or_else r l) o
absorb r l o b e = ground arith

module _ {w : WordBits} where
  IsReady-of_test :
      {j : ℕ} {t : Node} (other : Root) (x : ℕ)
      → Trie w j t
      → x < pow2 (bits w)
      → prefix_below t x ≡ true
      → IsReady t other x
  IsReady-of_test none x h p e = tt
  IsReady-of_test (some o) x (tip y z q) p e = ground (arith, prefix_below-shr x (tip y z q) p)
  IsReady-of_test (some o) x (fork _ _ _ _ _ _ _ _ _) p e = tt

  jump :
      (fuel x : ℕ) (other : Root)
      → RootTrie w other
      → root_count other < fuel
      → ((i : ℕ) (o : Node)
          → Trie w i o
          → node_count o + 0 < fuel
          → find_loop w fuel o none x ≡ ok (found_at w (last_below o x) x))
      → jump_to w fuel x other ≡ ok (found_at w (other_below other x) x)
  jump fuel x none ho lt rec = refl
  jump fuel x (some o) (i, h) lt rec = rec i o h (omega arith)

  find_loop_lem :
      {j : ℕ} {t : Node} (fuel : ℕ) (other : Root) (x : ℕ)
      → Trie w j t
      → RootTrie w other
      → node_count t + root_count other < fuel
      → IsReady t other x
      → x < pow2 (bits w)
      → find_loop w fuel t other x
        ≡ ok (found_at w (or_else (last_below t x) (other_below other x)) x)
  unfolding find_loop last_below
  find_loop_lem zero other x h ho lt ready p = absurd (omega arith)
  find_loop_lem (suc fuel) none x (tip {a = a} {b = b} _ _ e) ho lt ready p = ground arith
  find_loop_lem (suc fuel) (some o) x (tip {a = a} {b = b} _ _ e) ho lt ready p = ground arith
  find_loop_lem (suc fuel) other x
        (fork {k = k} {i = i} {j = j} {a = a} {m = m} {l = l} {r = r} n ha hm il jr u v hl hr) ho lt
        ready p =
      elim (Bool-cases (prefix_below r x)) [
        | inl up ↦
            let z = shr_up_le (addr_of r) x j k jr (ground (arith, prefix_below-shr x hr p)) in
            let y = addr-Under k (2 * shr a (suc k) + 1) r v in
            let (b, e) = some_below k (2 * shr a (suc k)) x hl u (omega arith) in
            let f = later_right k a x u v hl hr in
            let g =
              find_loop_lem fuel (some l) x hr (i, hl) (omega (arith, lt))
                (IsReady-of_test (some l) x hr p up) p in
            rw (up, find_loop, g)
              (ap (λ (z : Option Block). ok (found_at w z x))
                (absorb (last_below r x) (last_below l x) (other_below other x) b e
                  ∙ ap (λ (z : Option Block). or_else z (other_below other x)) (sym f)))
        | inr down ↦
            let z : shr x j < shr (addr_of r) j = ground (arith, prefix_below-shr x hr p) in
            let off = none_below j (shr (addr_of r) j) x hr (Trie-Under j hr (omega arith)) z in
            elim (Bool-cases (prefix_below l x)) [
              | inl up ↦
                  let g =
                    find_loop_lem fuel other x hl ho (omega (arith, lt))
                      (IsReady-of_test other x hl p up) p in
                  rw (down, find_loop, up, g, last_below, off, later-none) refl
              | inr low ↦
                  let y : shr x i < shr (addr_of l) i = ground (arith, prefix_below-shr x hl p) in
                  let none' =
                    none_below i (shr (addr_of l) i) x hl (Trie-Under i hl (omega arith)) y in
                  rw (down, find_loop, low, last_below, off, none')
                    (jump fuel x other ho (omega (arith, lt)) (λ i' o h lt'.
                      find_loop_lem fuel none x h tt lt' tt p
                      ∙ ap (λ (z : Option Block). ok (found_at w z x))
                          (or_else-none (last_below o x))))
            ]
      ]

-- On a trie of words whose blocks end before the end of the address space, `bt_find` at any word but 0
-- returns: the block with the greatest start at or below the address if the address is one of its
-- bytes, or the start of a block of no bytes, and NULL otherwise.
pub bt_find-last_below :
    (w : WordBits) (j : ℕ) (t : Node) (x : ℕ)
    → Trie w j t
    → x < pow2 (bits w)
    → x ≢ 0
    → EndsInside w t
    → bt_find w (some t) x ≡ ok (containing (last_below t x) x)
unfolding bt_find
bt_find-last_below w j t x h p nonzero inside =
    let off : (x == 0) ≡ false = ground arith in
    rw (off, bt_find)
      (find_loop_lem (suc (node_count t)) none x h tt (omega arith) tt p
        ∙ ap (λ (z : Option Block). ok (found_at w z x)) (or_else-none (last_below t x))
        ∙ ap ok (found_at-containing w t x inside))
