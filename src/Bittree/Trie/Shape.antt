-- ===== src/Bittree/Trie/Shape.antt =====
-- The shape of a trie.
use frama_c_snapshot.Prelude.{
  ℕ, zero, suc, ◌+◌, ◌*◌, ◌/◌, ◌<◌, ◌≤◌, ◌≡◌, refl, ap, ◌∙◌, arith, leb, ◌==◌, inl, inr, Bool-cases,
}
use frama_c_snapshot.Prelude.Bits.{shr, pow2}
use frama_c_snapshot.Bittree.Tables.{WordBits, bits}
use frama_c_snapshot.Bittree.Mask.{mask_of}
use frama_c_snapshot.Bittree.Mask.Prefix.{prefix_eq, prefix_le, prefix-lt, shr-prefix}
use frama_c_snapshot.Bittree.Trie.{prefix, same_prefix, prefix_below}
use frama_c_snapshot.Bittree.Block.{Block, Node, leaf, inner, addr_of, mask_field}

-- every address in the tree is `c` above its `k` lowest digits
abbrev pub Under : ℕ → ℕ → Node → Type 0
Under k c (leaf a m b) = shr a k ≡ c
Under k c (inner a m l r) = (shr a k ≡ c) × Under k c l × Under k c r

-- `Trie w j t`: the addresses of `t` share all but their `j` lowest digits, the mask of each node
-- says how many its addresses share, and the next digit is 0 on the left and 1 on the right.
pub data Trie (w : WordBits) : ℕ → Node → Type 0 where
  tip :
      {a m : ℕ} {b : Block}
      → a < pow2 (bits w)
      → m ≡ mask_of w 0
      → b.ptr ≡ a
      → Trie w zero (leaf a m b)
  fork :
      {k i j a m : ℕ} {l r : Node}
      → suc k ≤ bits w
      → a < pow2 (bits w)
      → m ≡ mask_of w (suc k)
      → i ≤ k
      → j ≤ k
      → Under k (2 * shr a (suc k)) l
      → Under k (2 * shr a (suc k) + 1) r
      → Trie w i l
      → Trie w j r
      → Trie w (suc k) (inner a m l r)

pub addr-Under : (k c : ℕ) (t : Node) → Under k c t → shr (addr_of t) k ≡ c
addr-Under k c (leaf a m b) u = u
addr-Under k c (inner a m l r) u = u.0

pub Under-half : (k c : ℕ) (t : Node) → Under k c t → Under (suc k) (c / 2) t
Under-half k c (leaf a m b) u = ap (λ (t : ℕ). t / 2) u
Under-half k c (inner a m l r) u =
    (ap (λ (t : ℕ). t / 2) u.0, Under-half k c l u.1, Under-half k c r u.2)

pub Under-cast : (k : ℕ) {c d : ℕ} (t : Node) → c ≡ d → Under k c t → Under k d t
Under-cast k (leaf a m b) e u = u ∙ e
Under-cast k (inner a m l r) e u = (u.0 ∙ e, Under-cast k l e u.1, Under-cast k r e u.2)

module _ {w : WordBits} where
  pub addr-lt : {j : ℕ} {t : Node} → Trie w j t → addr_of t < pow2 (bits w)
  addr-lt (tip h _ _) = h
  addr-lt (fork _ h _ _ _ _ _ _ _) = h

  pub width-le : {j : ℕ} {t : Node} → Trie w j t → j ≤ bits w
  width-le (tip h _ _) = omega arith
  width-le (fork h _ _ _ _ _ _ _ _) = h

  pub mask_field-mask_of : {j : ℕ} {t : Node} → Trie w j t → mask_field t ≡ mask_of w j
  mask_field-mask_of (tip _ h _) = h
  mask_field-mask_of (fork _ _ h _ _ _ _ _ _) = h

  Trie-Under_self : {j : ℕ} {t : Node} → Trie w j t → Under j (shr (addr_of t) j) t
  Trie-Under_self (tip _ _ _) = refl
  Trie-Under_self (fork {k = k} {a = a} {l = l} {r = r} _ _ _ _ _ u v _ _) =
      let q = shr a (suc k) in
      (
        refl,
        Under-cast (suc k) {d = q} l (omega arith) (Under-half k (2 * q) l u),
        Under-cast (suc k) {d = q} r (omega arith) (Under-half k (2 * q + 1) r v),
      )

  -- all addresses of a trie agree with its root above the root's width
  pub Trie-Under : {j : ℕ} {t : Node} (k : ℕ) → Trie w j t → j ≤ k → Under k (shr (addr_of t) k) t
  Trie-Under {j} {t} zero h p = let e : j ≡ 0 = omega arith in rw e at (Trie-Under_self h)
  Trie-Under {j} {t} (suc k) h p = elim (Bool-cases (j == suc k)) [
    | inl e ↦ let q : j ≡ suc k = ground arith in rw q at (Trie-Under_self h)
    | inr n ↦ Under-half k _ t (Trie-Under k h (ground arith))
  ]

  -- the tests of the code, on a child whose width is at most `k`
  pub same_prefix-shr :
      {j : ℕ} {t : Node} (x : ℕ)
      → Trie w j t
      → x < pow2 (bits w)
      → same_prefix t x ≡ (shr (addr_of t) j == shr x j)
  same_prefix-shr {j} {t} x h p =
      rw (mask_field-mask_of h) (prefix_eq (bits w) j (addr_of t) x (width-le h) (addr-lt h) p)

  pub prefix_below-shr :
      {j : ℕ} {t : Node} (x : ℕ)
      → Trie w j t
      → x < pow2 (bits w)
      → prefix_below t x ≡ leb (shr (addr_of t) j) (shr x j)
  prefix_below-shr {j} {t} x h p =
      rw (mask_field-mask_of h) (prefix_le (bits w) j (addr_of t) x (width-le h) (addr-lt h) p)

  pub prefix-is_word : {j : ℕ} {t : Node} → Trie w j t → prefix t < pow2 (bits w)
  prefix-is_word {j} {t} h =
      rw (mask_field-mask_of h) (prefix-lt (bits w) j (addr_of t) (width-le h) (addr-lt h))

  pub shr-prefix_of :
      {j : ℕ} {t : Node} (k : ℕ) → Trie w j t → j ≤ k → shr (prefix t) k ≡ shr (addr_of t) k
  shr-prefix_of {j} {t} k h p =
      rw (mask_field-mask_of h) (shr-prefix (bits w) j k (addr_of t) (width-le h) p (addr-lt h))
