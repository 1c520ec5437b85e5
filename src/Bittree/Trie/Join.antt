-- ===== src/Bittree/Trie/Join.antt =====
-- Two tries that part at a digit: the masks over them, and `new_parent`, which joins a trie and a
-- new leaf.
use frama_c_snapshot.Prelude.{
  ℕ, suc, ◌+◌, ◌*◌, ◌-◌, ◌<◌, ◌≤◌, ◌≡◌, ◌≢◌, refl, ap, sym, ◌∙◌, Bool, true, false, arith, leb,
  if◌then◌else◌, inl, inr, Bool-cases, bit_and, get_or,
}
use frama_c_snapshot.Prelude.Bits.{
  shr, pow2, shr_mono, shr_up, shr-bit_and, bit_and_self, bit_and-le, bit_and_ones,
}
use frama_c_snapshot.Bittree.Tables.{WordBits, w16, w32, w64, bits, tmasks}
use frama_c_snapshot.Bittree.Mask.{mask, mask_of}
use frama_c_snapshot.Bittree.Mask.Search.{diff, diff-le, mask-mask_of}
use frama_c_snapshot.Bittree.Block.{Block, Node, inner, addr_of}
use frama_c_snapshot.Bittree.Trie.{prefix, refresh_mask, new_leaf, new_parent}
use frama_c_snapshot.Bittree.Trie.Shape.{
  Under, Under-cast, Trie, tip, fork, addr-Under, Trie-Under, addr-lt, width-le, prefix-is_word,
  shr-prefix_of,
}
use frama_c_snapshot.Bittree.Trie.Similar.{diff_at}

pub full_mask : (w : WordBits) → get_or (tmasks w) (bits w) 0 ≡ mask_of w 0
full_mask w16 = refl
full_mask w32 = refl
full_mask w64 = refl

pub new_leaf-Trie : (w : WordBits) (b : Block) → b.ptr < pow2 (bits w) → Trie w 0 (new_leaf w b)
new_leaf-Trie w b p = tip p (full_mask w) refl

either_mask : (at_root : Bool) {x y m : ℕ} → x ≡ m → y ≡ m → (if at_root then x else y) ≡ m
either_mask true e f = e
either_mask false e f = f

-- the digit at which a trie and a word outside of it part
pub parting : WordBits → Node → ℕ → ℕ
parting w t x = diff (bits w) (prefix t) x - 1

pub prefix-new_leaf :
    (w : WordBits) (b : Block) → b.ptr < pow2 (bits w) → prefix (new_leaf w b) ≡ b.ptr
prefix-new_leaf w b p = rw full_mask (bit_and_ones b.ptr (bits w) p)

module _ {w : WordBits} where
  -- Two tries that part at the digit `k` have the mask of their shared digits.
  pub mask_pair :
      {i j : ℕ} {s t : Node} (k : ℕ)
      → suc k ≤ bits w
      → Trie w i s
      → Trie w j t
      → i ≤ k
      → j ≤ k
      → shr (addr_of s) k ≢ shr (addr_of t) k
      → shr (addr_of s) (suc k) ≡ shr (addr_of t) (suc k)
      → mask w (prefix s) (prefix t) ≡ mask_of w (suc k)
  mask_pair {i} {j} {s} {t} k n hs ht ik jk ne e =
      let d = diff (bits w) (prefix s) (prefix t) in
      let at_k = diff_at k (prefix t) hs (prefix-is_word ht) ik (omega arith) in
      let at_suc = diff_at (suc k) (prefix t) hs (prefix-is_word ht) (omega arith) n in
      let f = shr-prefix_of k ht jk in
      let g = shr-prefix_of (suc k) ht (omega arith) in
      let q : d ≡ suc k = ground arith in
      mask-mask_of w (prefix s) (prefix t) (prefix-is_word hs) (prefix-is_word ht)
      ∙ ap (λ (z : ℕ). mask_of w z) q

  -- A trie whose addresses share all but `k` digits is no wider than that.
  pub width-le_of_Under : {j : ℕ} {t : Node} (k c : ℕ) → Trie w j t → Under k c t → j ≤ k
  width-le_of_Under k c (tip _ _ _) u = omega arith
  width-le_of_Under k c (fork {k = k'} {a = a} {l = l} {r = r} _ _ _ _ _ u v _ _) h =
      elim (Bool-cases (leb (suc k') k)) [
        | inl e ↦ ground arith
        | inr e ↦
            let x = addr-Under k c l h.1 in
            let y = addr-Under k c r h.2 in
            let z = shr_up (addr_of l) (addr_of r) k k' (ground arith) (x ∙ sym y) in
            absurd (
              omega (
                arith,
                addr-Under k' (2 * shr a (suc k')) l u,
                addr-Under k' (2 * shr a (suc k') + 1) r v,
              ))
      ]

  -- The masks that the source computes again are the old ones.
  pub children_mask :
      {k i j : ℕ} (a : ℕ) {l r : Node}
      → suc k ≤ bits w
      → Trie w i l
      → Trie w j r
      → i ≤ k
      → j ≤ k
      → Under k (2 * shr a (suc k)) l
      → Under k (2 * shr a (suc k) + 1) r
      → mask w (prefix l) (prefix r) ≡ mask_of w (suc k)
  children_mask {k} {i} {j} a {l} {r} n hl hr ik jk u v =
      let x = addr-Under k (2 * shr a (suc k)) l u in
      let y = addr-Under k (2 * shr a (suc k) + 1) r v in
      mask_pair k n hl hr ik jk (λ e. absurd (omega arith)) (omega arith)

  pub refresh_mask_same : {j : ℕ} {t : Node} → Trie w j t → refresh_mask w t ≡ t
  unfolding refresh_mask
  refresh_mask_same (tip _ _ _) = refl
  refresh_mask_same (fork {a = a} {l = l} {r = r} n _ m ik jk u v hl hr) =
      ap (λ (z : ℕ). inner a z l r) (children_mask a n hl hr ik jk u v ∙ sym m)

  module _ {j : ℕ} {t : Node} (x : ℕ) (h : Trie w j t) (p : x < pow2 (bits w))
      (apart : shr (addr_of t) j ≢ shr x j) where
    parting_facts :
        (j ≤ parting w t x)
        × (suc (parting w t x) ≤ bits w)
        × (shr (addr_of t) (parting w t x) ≢ shr x (parting w t x))
        × (shr (addr_of t) (suc (parting w t x)) ≡ shr x (suc (parting w t x)))
    unfolding parting
    parting_facts =
        let d = diff (bits w) (prefix t) x in
        let u = diff-le (bits w) (prefix t) x in
        let far : j < d = ground (arith, diff_at j x h p (omega arith) (width-le h)) in
        let e : suc (d - 1) ≡ d = omega arith in
        let low = diff_at (d - 1) x h p (omega arith) (omega arith) in
        let high = diff_at (suc (d - 1)) x h p (omega arith) (omega arith) in
        (omega arith, omega arith, ground arith, ground arith)

  -- The new parent is a trie, whichever way its mask is computed.
  pub new_parent-Trie :
      {j : ℕ} {t : Node} (at_root : Bool) (b : Block)
      → Trie w j t
      → b.ptr < pow2 (bits w)
      → shr (addr_of t) j ≢ shr b.ptr j
      → (i : ℕ) × Trie w i (new_parent w at_root b t)
  unfolding new_parent
  new_parent-Trie {j} {t} at_root b h p apart =
      let k = parting w t b.ptr in
      let (jk, kn, ne, same) = parting_facts b.ptr h p apart in
      let hb = new_leaf-Trie w b p in
      let x = b.ptr in
      let a = bit_and (addr_of t) x in
      let shared : shr a (suc k) ≡ shr x (suc k) =
        shr-bit_and (addr_of t) x (suc k) ∙ rw same (bit_and_self (shr x (suc k))) in
      let small : a < pow2 (bits w) = omega (arith, bit_and-le (addr_of t) x, addr-lt h) in
      let leaf_prefix = prefix-new_leaf w b p in
      let m1 : mask w (prefix t) (prefix (new_leaf w b)) ≡ mask_of w (suc k) =
        mask_pair k kn h hb jk (omega arith) ne same in
      let m2 : mask w (prefix (new_leaf w b)) (prefix t) ≡ mask_of w (suc k) =
        mask_pair k kn hb h (omega arith) jk (λ e. ne (sym e)) (sym same) in
      let m0 : mask w (prefix t) x ≡ mask_of w (suc k) =
        ap (λ (z : ℕ). mask w (prefix t) z) (sym leaf_prefix) ∙ m1 in
      elim (Bool-cases (leb x (addr_of t))) [
        | inl below ↦
            let le = shr_mono x (addr_of t) k (ground arith) in
            (
              suc k,
              rw (below, new_parent, refresh_mask_same h)
                  (fork kn small (either_mask at_root m0 m2) (omega arith) jk (omega arith)
                    (Under-cast k t (omega arith) (Trie-Under k h jk)) hb h),
            )
        | inr over ↦
            let le = shr_mono (addr_of t) x k (ground arith) in
            (
              suc k,
              rw (over, new_parent, refresh_mask_same h)
                  (fork kn small (either_mask at_root m0 m1) jk (omega arith)
                    (Under-cast k t (omega arith) (Trie-Under k h jk)) (omega arith) h hb),
            )
      ]
