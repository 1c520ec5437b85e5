-- ===== src/Bittree/Trie/Lookup.antt =====
-- `bt_lookup` finds the block that starts at an address.
use frama_c_snapshot.Prelude.{
  ℕ, suc, ◌+◌, ◌*◌, ◌<◌, ◌≤◌, ◌≡◌, ◌≢◌, refl, ap, true, false, Option, none, some, arith, ◌==◌,
  if◌then◌else◌, inl, inr, Bool-cases, bit_and,
}
use frama_c_snapshot.Prelude.Bits.{shr, pow2, shr_up}
use frama_c_snapshot.Prelude.Run.{ok}
use frama_c_snapshot.Bittree.Tables.{WordBits, bits}
use frama_c_snapshot.Bittree.Mask.Prefix.{prefix_eq}
use frama_c_snapshot.Bittree.Block.{Block, Node, leaf, inner, addr_of}
use frama_c_snapshot.Bittree.Trie.{same_prefix, lookup_from, bt_lookup}
use frama_c_snapshot.Bittree.Trie.Shape.{
  Under, Trie, tip, fork, addr-Under, Trie-Under, same_prefix-shr,
}

-- The block that starts at `x`, by a search through all leaves.
unfoldable pub tracked : Node → ℕ → Option Block
tracked (leaf a m b) x = if b.ptr == x then some b else none
tracked (inner a m l r) x = elim (tracked l x) [ some b ↦ some b | none ↦ tracked r x ]

module _ {w : WordBits} where
  -- an address with another prefix is not tracked
  pub tracked_elsewhere :
      {j : ℕ} {t : Node} (k c x : ℕ) → Trie w j t → Under k c t → shr x k ≢ c → tracked t x ≡ none
  unfolding tracked
  tracked_elsewhere k c x (tip {a = a} {b = b} _ _ e) u n = elim (Bool-cases (b.ptr == x)) [
    | inl f ↦ absurd (n (let q : a ≡ x = ground arith in rw q at u))
    | inr f ↦ rw f
  ]
  tracked_elsewhere k c x (fork {l = l} {r = r} _ _ _ _ _ _ _ hl hr) u n =
      rw (tracked_elsewhere k c x hl u.1 n, tracked) (tracked_elsewhere k c x hr u.2 n)

  -- nor is one that the code's test tells apart
  pub tracked_off :
      {j : ℕ} {t : Node} (x : ℕ)
      → Trie w j t
      → x < pow2 (bits w)
      → same_prefix t x ≡ false
      → tracked t x ≡ none
  tracked_off {j} {t} x h p off =
      tracked_elsewhere j (shr (addr_of t) j) x h (Trie-Under j h (omega arith))
        (ground (arith, same_prefix-shr x h p))

  pub shr_of_same :
      {j : ℕ} {t : Node} (k x : ℕ)
      → Trie w j t
      → x < pow2 (bits w)
      → j ≤ k
      → same_prefix t x ≡ true
      → shr x k ≡ shr (addr_of t) k
  shr_of_same {j} {t} k x h p le e =
      shr_up x (addr_of t) j k le (ground (arith, same_prefix-shr x h p))

  pub lookup_from-tracked :
      {j : ℕ} {t : Node} (x : ℕ) → Trie w j t → x < pow2 (bits w) → lookup_from t x ≡ tracked t x
  unfolding lookup_from tracked
  lookup_from-tracked x (tip _ _ _) p = refl
  lookup_from-tracked x
        (fork {k = k} {i = i} {j = j} {a = a} {m = m} {l = l} {r = r} n ha hm il jr u v hl hr) p =
      let q = shr a (suc k) in
      let root : (bit_and a m == bit_and x m) ≡ (shr a (suc k) == shr x (suc k)) =
        rw hm (prefix_eq (bits w) (suc k) a x n ha p) in
      elim (Bool-cases (bit_and a m == bit_and x m)) [
        | inr off ↦
            let far : shr a (suc k) ≢ shr x (suc k) = ground arith in
            rw (
              off,
              lookup_from,
              tracked,
              tracked_elsewhere k (2 * q) x hl u (λ e. far (omega arith)),
              tracked_elsewhere k (2 * q + 1) x hr v (λ e. far (omega arith)),
            )
        | inl on ↦ elim (Bool-cases (same_prefix r x)) [
          | inl sr ↦
              let e = shr_of_same k x hr p jr sr in
              let f = addr-Under k (2 * q + 1) r v in
              rw
                (
                  on,
                  lookup_from,
                  sr,
                  tracked,
                  tracked_elsewhere k (2 * q) x hl u (λ g. absurd (omega arith)),
                )
                (lookup_from-tracked x hr p)
          | inr nr ↦ elim (Bool-cases (same_prefix l x)) [
            | inl sl ↦ ground (arith, lookup_from-tracked x hl p, tracked_off x hr p nr)
            | inr nl ↦
                rw (on, lookup_from, nr, nl, tracked, tracked_off x hl p nl, tracked_off x hr p nr)
          ]
        ]
      ]

-- The address of a block that a tree tracks is the one asked for.
pub tracked-ptr : (t : Node) (x : ℕ) (b : Block) → tracked t x ≡ some b → b.ptr ≡ x
unfolding tracked
tracked-ptr (leaf a m c) x b h = ground arith
tracked-ptr (inner a m l r) x b h = ground (arith, tracked-ptr l x b, tracked-ptr r x b)

-- On a trie of words, `bt_lookup` at any word returns the block of some leaf that starts there,
-- and NULL exactly if there is none.
pub bt_lookup-tracked :
    (w : WordBits) (j : ℕ) (t : Node) (x : ℕ)
    → Trie w j t
    → x < pow2 (bits w)
    → bt_lookup (some t) x ≡ ok (tracked t x)
unfolding bt_lookup
bt_lookup-tracked w j t x h p = ap ok (lookup_from-tracked x h p)
