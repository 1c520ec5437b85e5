-- ===== src/Libc/Bytes/Move.antt =====
-- `memmove` copies blocks that may overlap.
use frama_c_snapshot.Prelude.{
  ℕ, zero, suc, ◌+◌, ◌<◌, ◌≤◌, ◌≡◌, ◌⊎◌, refl, sym, ◌∙◌, ◌&&◌, some, List, [], ◌∷◌, arith, ◌==◌,
  leb, ltb, inl, inr, Bool-cases, get_elem?, set, length, length-set, get_elem?-set_self,
  get_elem?-set_ne,
}
use frama_c_snapshot.Prelude.Run.{ok}
use frama_c_snapshot.Libc.Bytes.{write, memoverlap, copy_up, copy_down, memmove}

-- the cells hold a byte at every place below their length
pub get_elem?_below : (xs : List ℕ) (i : ℕ) → i < length xs → (v : ℕ) × (get_elem? xs i ≡ some v)
get_elem?_below [] i h = absurd (omega arith)
get_elem?_below (x ∷ xs) zero h = (x, refl)
get_elem?_below (x ∷ xs) (suc i) h = get_elem?_below xs i (omega arith)

-- `moved` is `cells` with the `n` bytes from `s + i` at the `n` places from `d + i`.
abbrev pub Moved : ℕ → ℕ → ℕ → ℕ → List ℕ → List ℕ → Type 0
Moved n i d s cells moved =
    (length moved ≡ length cells)
    × ((k : ℕ) → i ≤ k → k < i + n → get_elem? moved (d + k) ≡ get_elem? cells (s + k))
    × ((k : ℕ) → (k < d + i) ⊎ (d + i + n ≤ k) → get_elem? moved k ≡ get_elem? cells k)

copy_up-Moved :
    (n i d s : ℕ) (cells : List ℕ)
    → (d ≤ s) ⊎ (s + i + n ≤ d)
    → d + i + n ≤ length cells
    → s + i + n ≤ length cells
    → (moved : List ℕ) × (copy_up n i d s cells ≡ ok moved) × Moved n i d s cells moved
unfolding copy_up
copy_up-Moved zero i d s cells o p q =
    (cells, refl, (refl, (λ k a b. absurd (omega arith)), λ k _. refl))
copy_up-Moved (suc n) i d s cells o p q =
    let (v, r) = get_elem?_below cells (s + i) (omega arith) in
    let (u, t) = get_elem?_below cells (d + i) (omega arith) in
    let cells' = set cells (d + i) v in
    let len : length cells' ≡ length cells = length-set cells (d + i) v in
    let (moved, e, (l, inside, outside)) =
      copy_up-Moved n (i + 1) d s cells' (ground arith) (omega (arith, len)) (omega (arith, len)) in
    (
      moved,
      rw (r, write, t) e,
      (
        l ∙ len,
        (λ k a b. elim (Bool-cases (k == i)) [
          | inl z ↦
              let same : k ≡ i = ground arith in
              rw same (
                outside (d + i) (inl (omega arith))
                ∙ get_elem?-set_self cells (d + i) v (omega arith)
                ∙ sym r)
          | inr z ↦ inside k (ground arith) (omega arith) ∙ get_elem?-set_ne cells v (ground arith)
        ]),
        λ k a. outside k (ground arith) ∙ get_elem?-set_ne cells v (ground arith),
      ),
    )

copy_down-Moved :
    (i d s : ℕ) (cells : List ℕ)
    → s ≤ d
    → d + i < length cells
    → (moved : List ℕ) × (copy_down i d s cells ≡ ok moved) × Moved (suc i) 0 d s cells moved
unfolding copy_down
copy_down-Moved zero d s cells o p =
    let (v, r) = get_elem?_below cells s (omega arith) in
    let (u, t) = get_elem?_below cells d (omega arith) in
    (
      set cells d v,
      rw (r, write, t) refl,
      (
        length-set cells d v,
        (λ k a b.
            let z : d + k ≡ d = omega arith in
            let z' : s + k ≡ s = omega arith in
            rw (z, z') (get_elem?-set_self cells d v (omega arith) ∙ sym r)),
        λ k a. get_elem?-set_ne cells v (ground arith),
      ),
    )
copy_down-Moved (suc i) d s cells o p =
    let (v, r) = get_elem?_below cells (s + suc i) (omega arith) in
    let (u, t) = get_elem?_below cells (d + suc i) (omega arith) in
    let cells' = set cells (d + suc i) v in
    let len : length cells' ≡ length cells = length-set cells (d + suc i) v in
    let (moved, e, (l, inside, outside)) = copy_down-Moved i d s cells' o (omega (arith, len)) in
    (
      moved,
      rw (r, write, t) e,
      (
        l ∙ len,
        (λ k a b. elim (Bool-cases (k == suc i)) [
          | inl z ↦
              let same : k ≡ suc i = ground arith in
              rw same (
                outside (d + suc i) (inr (omega arith))
                ∙ get_elem?-set_self cells (d + suc i) v (omega arith)
                ∙ sym r)
          | inr z ↦ inside k a (ground arith) ∙ get_elem?-set_ne cells v (ground arith)
        ]),
        λ k a. outside k (ground arith) ∙ get_elem?-set_ne cells v (ground arith),
      ),
    )

-- Between two blocks of `n` bytes of one object, overlapping in any way, `memmove` returns; the
-- destination then holds the bytes that the source held before the call, and every other byte of
-- the object is unchanged.
pub memmove-Moved :
    (d s n : ℕ) (cells : List ℕ)
    → d + n ≤ length cells
    → s + n ≤ length cells
    → (moved : List ℕ) × (memmove d s n cells ≡ ok moved) × Moved n 0 d s cells moved
unfolding memmove
memmove-Moved d s zero cells p q =
    (cells, refl, (refl, (λ k a b. absurd (omega arith)), λ k _. refl))
memmove-Moved d s (suc n) cells p q = elim (Bool-cases (leb d s && ltb s (d + suc n))) [
  | inl e ↦
      rw (memmove, memoverlap, e)
        (copy_up-Moved (suc n) 0 d s cells (ground arith) (omega arith) (omega arith))
  | inr e ↦ elim (Bool-cases (leb s d && ltb d (s + suc n))) [
    | inl f ↦
        rw (memmove, memoverlap, e, f) (copy_down-Moved n d s cells (ground arith) (omega arith))
    | inr f ↦
        rw (memmove, memoverlap, e, f)
          (copy_up-Moved (suc n) 0 d s cells (ground arith) (omega arith) (omega arith))
  ]
]
