-- ===== src/Bittree/Trie/Below.antt =====
-- The block with the greatest start at or below an address.
use frama_c_snapshot.Prelude.{
  ℕ, suc, ◌+◌, ◌-◌, ◌*◌, ◌%◌, ◌<◌, ◌≤◌, ◌≡◌, refl, ap, sym, ◌∙◌, Option, none, some, arith, leb,
  ltb, ◌==◌, ◌&&◌, ◌||◌, if◌then◌else◌, inl, inr, Bool-cases, Option-cases,
}
use mathlib.Core.Path.{subst}
use native.Mathlib.Nat.{mod-eq_of_lt}
use frama_c_snapshot.Prelude.Bits.{shr, pow2, shr_mono}
use frama_c_snapshot.Bittree.Tables.{WordBits, bits}
use frama_c_snapshot.Bittree.Block.{Block, Node, leaf, inner}
use frama_c_snapshot.Bittree.Trie.Shape.{Under, Trie, tip, fork}
use frama_c_snapshot.Bittree.Trie.{leaf_contains}

-- the later one of two blocks
abbrev pub later : Option Block → Option Block → Option Block
later none c = c
later (some b) none = some b
later (some b) (some c) = if leb b.ptr c.ptr then some c else some b

-- The last block that starts at or below an address, by a search through all leaves.
unfoldable pub last_below : Node → ℕ → Option Block
last_below (leaf a m b) x = if leb b.ptr x then some b else none
last_below (inner a m l r) x = later (last_below l x) (last_below r x)

-- The block, if the address is one of its bytes, or the start of a block of no bytes. This is said of
-- the offset in the block, for an address behind its start.
abbrev pub containing : Option Block → ℕ → Option Block
containing none x = none
containing (some b) x = if ltb (x - b.ptr) b.size || b.size == 0 && x == b.ptr then some b else none

-- what the code makes of it
abbrev pub found_at : WordBits → Option Block → ℕ → Option Block
found_at w none x = none
found_at w (some b) x = if leaf_contains w b.ptr b x then some b else none

-- No block reaches the end of the address space.
abbrev pub EndsInside : WordBits → Node → Type 0
EndsInside w (leaf a m b) = b.ptr + b.size < pow2 (bits w)
EndsInside w (inner a m l r) = EndsInside w l × EndsInside w r

-- a property of blocks holds of the later one
later-either :
    (P : Block → Type 0) (o p : Option Block) (b : Block)
    → ((c : Block) → o ≡ some c → P c)
    → ((c : Block) → p ≡ some c → P c)
    → later o p ≡ some b
    → P b
later-either P none p b f g e = g b e
later-either P (some c) none b f g e = f b e
later-either P (some c) (some d) b f g e = elim (Bool-cases (leb c.ptr d.ptr)) [
  | inl q ↦ g b (rw q at e)
  | inr q ↦ f b (rw q at e)
]

last_below-EndsInside :
    (w : WordBits) (t : Node) (x : ℕ) (b : Block)
    → EndsInside w t
    → last_below t x ≡ some b
    → (b.ptr ≤ x) × (b.ptr + b.size < pow2 (bits w))
unfolding last_below
last_below-EndsInside w (leaf a m c) x b h e = elim (Bool-cases (leb c.ptr x)) [
  | inl q ↦
      let same : c ≡ b = let e' = rw q at e in cc in
      subst (λ (d : Block). (d.ptr ≤ x) × (d.ptr + d.size < pow2 (bits w))) same (ground arith, h)
  | inr q ↦ absurd (let e' = rw q at e in cc)
]
last_below-EndsInside w (inner a m l r) x b (hl, hr) e =
    later-either (λ d. (d.ptr ≤ x) × (d.ptr + d.size < pow2 (bits w))) (last_below l x)
      (last_below r x) b (λ c. last_below-EndsInside w l x c hl)
      (λ c. last_below-EndsInside w r x c hr) e

-- The code's test, with an end that may wrap around, is that of the offset.
pub found_at-containing :
    (w : WordBits) (t : Node) (x : ℕ)
    → EndsInside w t
    → found_at w (last_below t x) x ≡ containing (last_below t x) x
found_at-containing w t x h = elim (Option-cases (last_below t x)) [
  | inl e ↦ rw e refl
  | inr (b, e) ↦
      let (le, inside) = last_below-EndsInside w t x b h e in
      let wrap : (b.size + b.ptr) % pow2 (bits w) ≡ b.size + b.ptr = mod-eq_of_lt (omega arith) in
      let test : ltb x (b.size + b.ptr) ≡ ltb (x - b.ptr) b.size = ground arith in
      rw (e, wrap, test) refl
]

abbrev pub or_else : Option Block → Option Block → Option Block
or_else none c = c
or_else (some b) c = some b

pub or_else-none : (o : Option Block) → or_else o none ≡ o
or_else-none none = refl
or_else-none (some b) = refl

pub later-none : (o : Option Block) → later o none ≡ o
later-none none = refl
later-none (some b) = refl

module _ {w : WordBits} where
  -- blocks above the address are passed over
  pub none_below :
      {j : ℕ} {t : Node} (k c x : ℕ)
      → Trie w j t
      → Under k c t
      → shr x k < c
      → last_below t x ≡ none
  unfolding last_below
  none_below k c x (tip {a = a} {b = b} _ _ e) u lt = elim (Bool-cases (leb b.ptr x)) [
    | inl f ↦ absurd (let z = shr_mono a x k (ground arith) in omega arith)
    | inr f ↦ rw f
  ]
  none_below k c x (fork _ _ _ _ _ _ _ hl hr) u lt =
      rw (none_below k c x hl u.1 lt, last_below, none_below k c x hr u.2 lt)

  -- of blocks below it there is a last one
  pub some_below :
      {j : ℕ} {t : Node} (k c x : ℕ)
      → Trie w j t
      → Under k c t
      → c < shr x k
      → (b : Block) × (last_below t x ≡ some b)
  unfolding last_below
  some_below k c x (tip {a = a} {b = b} _ _ e) u lt = elim (Bool-cases (leb b.ptr x)) [
    | inl f ↦ (b, rw f)
    | inr f ↦ absurd (let z = shr_mono x a k (ground arith) in omega arith)
  ]
  some_below k c x (fork _ _ _ _ _ _ _ hl hr) u lt =
      let (b, e) = some_below k c x hl u.1 lt in
      let (d, g) = some_below k c x hr u.2 lt in
      elim (Bool-cases (leb b.ptr d.ptr)) [ inl f ↦ (d, rw (e, g, f)) | inr f ↦ (b, rw (e, g, f)) ]

  -- the last block below an address is one of the tree's
  pub last_below-Under :
      {j : ℕ} {t : Node} (k c x : ℕ) (b : Block)
      → Trie w j t
      → Under k c t
      → last_below t x ≡ some b
      → shr b.ptr k ≡ c
  unfolding last_below
  last_below-Under k c x d (tip {a = a} {b = b} _ _ e) u h =
      let f : d.ptr ≡ a = ground arith in ap (λ (z : ℕ). shr z k) f ∙ u
  last_below-Under k c x d (fork {l = l} {r = r} _ _ _ _ _ _ _ hl hr) u h =
      ground (arith, last_below-Under k c x d hl u.1, last_below-Under k c x d hr u.2)

  -- on the right all blocks start later than on the left
  pub later_right :
      {i j : ℕ} (k a : ℕ) {l r : Node} (x : ℕ)
      → Under k (2 * shr a (suc k)) l
      → Under k (2 * shr a (suc k) + 1) r
      → Trie w i l
      → Trie w j r
      → later (last_below l x) (last_below r x) ≡ or_else (last_below r x) (last_below l x)
  later_right {i} {j} k a {l} {r} x u v hl hr = elim (Option-cases (last_below l x)) [
    | inl e ↦ rw e (sym (or_else-none (last_below r x)))
    | inr (b, e) ↦ elim (Option-cases (last_below r x)) [
      | inl f ↦ rw (e, f)
      | inr (d, f) ↦
          let y = last_below-Under k (2 * shr a (suc k)) x b hl u e in
          let z = last_below-Under k (2 * shr a (suc k) + 1) x d hr v f in
          elim (Bool-cases (leb b.ptr d.ptr)) [
            | inl g ↦ rw (e, f, g)
            | inr g ↦ absurd (let q = shr_mono d.ptr b.ptr k (ground arith) in omega arith)
          ]
    ]
  ]
