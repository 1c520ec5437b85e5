-- ===== src/Libc/Alloc.antt =====
-- `calloc` and `posix_memalign` of share/libc/stdlib.c, over what `malloc` returns for a size: an
-- object of so many bytes, or NULL.
use frama_c_snapshot.Prelude.{
  ℕ, zero, suc, ◌*◌, ◌/◌, ◌%◌, ◌≤◌, ◌<◌, ◌≡◌, refl, sym, Bool, true, false, not, ◌&&◌, Option, none,
  some, List, ◌==◌, Bool-cases, inl, inr, arith,
}
use frama_c_snapshot.Prelude.Bits.{pow2, pow2_pos}
use frama_c_snapshot.Prelude.Run.{Run, ok, ◌>>=◌}
use frama_c_snapshot.Libc.Bytes.{memset}
use native.Mathlib.Nat.{div-mul-le_self, mod-lt}

-- A `size_t` has `bits` bits.
module _ (bits : ℕ) (malloc : ℕ → Option (List ℕ)) where
  -- whether the product `l` of `calloc` is cut off
  unfoldable pub product_overflows : ℕ → ℕ → ℕ → Bool
  product_overflows l nmemb size = not (size == 0) && not (l / size == nmemb)

  unfoldable pub calloc : ℕ → ℕ → Run (Option (List ℕ))
  unfolding product_overflows memset
  calloc nmemb size =
      let l = (nmemb * size) % pow2 bits in
      elim (product_overflows l nmemb size) [
        | true ↦ ok none
        | false ↦ elim (malloc l) [ none ↦ ok none | some p ↦ memset p 0 l >>= λ p'. ok (some p') ]
      ]

  -- The word that is returned, where `enomem` is the constant `ENOMEM`, and `*memptr`. The alignment
  -- stands only in an annotation of the code.
  unfoldable pub posix_memalign : ℕ → ℕ → ℕ × Option (List ℕ)
  posix_memalign enomem size = elim (malloc size) [ none ↦ (enomem, none) | some p ↦ (0, some p) ]

  -- a quotient of the word below a product gives the factor only if nothing was cut off
  cut_off : (l nmemb size : ℕ) → l < nmemb * size → (l / size == nmemb) ≡ false
  cut_off l nmemb size lt = elim (Bool-cases (l / size == nmemb)) [
    | inr e ↦ e
    | inl e ↦
        let quotient : l / size ≡ nmemb = ground arith in
        let le : nmemb * size ≤ l = rw (sym quotient) (div-mul-le_self l size) in
        absurd (omega arith)
  ]

  -- `calloc` of a product that no `size_t` holds returns NULL, whatever `malloc` does.
  pub calloc_overflow : (nmemb size : ℕ) → pow2 bits ≤ nmemb * size → calloc nmemb size ≡ ok none
  unfolding calloc product_overflows
  calloc_overflow nmemb zero le = absurd (omega (arith, pow2_pos bits))
  calloc_overflow nmemb (suc size) le =
      let lt = mod-lt (nmemb * suc size) (pow2_pos bits) in
      let other = cut_off ((nmemb * suc size) % pow2 bits) nmemb (suc size) (omega arith) in
      let positive : (suc size == 0) ≡ false = ground arith in rw (calloc, positive, other) refl
