-- ===== src/Format/Fetch/Fuel.antt =====
-- The loop of `get_format_directives` ends: more fuel than the format has bytes makes no difference.
use frama_c_snapshot.Prelude.{
  ℕ, zero, suc, ◌+◌, ◌<◌, ◌≤◌, ◌≡◌, refl, ap, Option, none, some, List, [], ◌∷◌, ◌==◌, arith,
  length, inl, inr, Bool-cases,
}
use frama_c_snapshot.Prelude.Run.{Run, ok, abort, fault, ◌>>=◌}
use frama_c_snapshot.Format.Abbrev.{Sizes}
use frama_c_snapshot.Format.Directive.{FormatDirective, Fetched}
use frama_c_snapshot.Format.Fetch.{fetch_directive, fetch_loop, get_format_directives}
use frama_c_snapshot.Format.Fetch.Shrinks.{weigh, Shrinks, fetch_directive-Shrinks}

abbrev each : ℕ → ℕ
each c = 1

weigh-length : (s : List ℕ) → weigh each s ≡ length s
weigh-length [] = refl
weigh-length (c ∷ s) = omega (arith, weigh-length s)

-- two continuations that agree on shorter formats
same_next :
    (m : Fetched) (n : ℕ) (f g : FormatDirective × List ℕ → Run (List FormatDirective))
    → Shrinks each m n
    → ((x : FormatDirective × List ℕ) → weigh each x.1 ≤ n → f x ≡ g x)
    → (m >>= f) ≡ (m >>= g)
same_next (ok x) n f g p h = h x p
same_next abort n f g p h = refl
same_next fault n f g p h = refl

module _ (sizes : Sizes) where
  fetch_loop_fuel :
      (out out' : Run (List FormatDirective)) (f g : ℕ) (fmt : List ℕ)
      (prev : Option FormatDirective) (i : ℕ)
      → length fmt < f
      → length fmt < g
      → fetch_loop sizes out f fmt prev i ≡ fetch_loop sizes out' g fmt prev i
  unfolding fetch_loop
  fetch_loop_fuel out out' zero g fmt prev i p q = absurd (omega arith)
  fetch_loop_fuel out out' (suc f) zero fmt prev i p q = absurd (omega arith)
  fetch_loop_fuel out out' (suc f) (suc g) [] prev i p q = refl
  fetch_loop_fuel out out' (suc f) (suc g) (c ∷ []) prev i p q = elim (Bool-cases (c == 0)) [
    | inl z ↦ rw (fetch_loop, z) refl
    | inr z ↦ elim (Bool-cases (c == 37)) [
      | inr e ↦
          rw (fetch_loop, z, e) (fetch_loop_fuel out out' f g [] prev i (omega arith) (omega arith))
      | inl e ↦ rw (fetch_loop, z, e) refl
    ]
  ]
  fetch_loop_fuel out out' (suc f) (suc g) (c ∷ d ∷ fmt) prev i p q = elim (Bool-cases (c == 0)) [
    | inl z ↦ rw (fetch_loop, z) refl
    | inr z ↦ elim (Bool-cases (c == 37)) [
      | inr e ↦
          rw (fetch_loop, z, e)
            (fetch_loop_fuel out out' f g (d ∷ fmt) prev i (omega arith) (omega arith))
      | inl e ↦ elim (Bool-cases (d == 37)) [
        | inl r ↦
            rw (fetch_loop, z, e, r)
              (fetch_loop_fuel out out' f g fmt prev i (omega arith) (omega arith))
        | inr r ↦
            let dir = fetch_directive sizes (d ∷ fmt) prev i in
            rw (fetch_loop, z, e, r)
              (same_next dir (weigh each (d ∷ fmt)) _ _
                (fetch_directive-Shrinks each sizes (d ∷ fmt) prev i)
                (λ x s.
                  let l = weigh-length x.1 in
                  let l' = weigh-length (d ∷ fmt) in
                  ap (λ (t : Run (List FormatDirective)). t >>= λ dirs. ok (x.0 ∷ dirs))
                    (fetch_loop_fuel out out' f g x.1 (some x.0) (i + 1) (omega (arith, l, l', s))
                      (omega (arith, l, l', s)))))
      ]
    ]
  ]

  -- With any fuel beyond the bytes of the format, and whatever stands for a run out of fuel, the loop
  -- does what `get_format_directives` does: it ends by the code, and never runs out of fuel.
  pub get_format_directives-fetch_loop :
      (out : Run (List FormatDirective)) (fmt : List ℕ) (fuel : ℕ)
      → length fmt < fuel
      → fetch_loop sizes out fuel fmt none 0 ≡ get_format_directives sizes fmt
  unfolding get_format_directives
  get_format_directives-fetch_loop out fmt fuel p =
      fetch_loop_fuel out fault fuel (suc (length fmt)) fmt none 0 p (omega arith)
