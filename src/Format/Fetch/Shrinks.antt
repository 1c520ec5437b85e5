-- ===== src/Format/Fetch/Shrinks.antt =====
-- The functions that fetch a directive leave a part of the format: for any weights of characters,
-- one that weighs no more.
use frama_c_snapshot.Prelude.{
  ℕ, suc, ◌+◌, ◌-◌, ◌*◌, ltb, ◌≤◌, Bool, true, false, Option, List, [], ◌∷◌, ◌==◌, if◌then◌else◌,
  arith, length, inl, inr, Bool-cases,
}
use frama_c_snapshot.Prelude.Bits.{pow2}
use frama_c_snapshot.Prelude.Run.{Run, ok, abort, fault, ◌>>=◌}
use frama_c_snapshot.Format.Abbrev.{Sizes}
use frama_c_snapshot.Format.Chars.{is_class, flag_id, period_id, specifier_id}
use frama_c_snapshot.Format.Directive.{
  blank, doubled_bytes, FormatDirective, fetch_digits, set_argno, same_numbering,
  fetch_format_argno, set_format_flag, fetch_format_flags, fetch_format_field_width,
  fetch_precision_number, fetch_format_precision, fetch_specifier, fetch_format_length, doubled,
  after_modifier, modifier_bytes, is_digit,
}
use frama_c_snapshot.Format.Fetch.{fetch_directive, save_text}

module _ (mark : ℕ → ℕ) where
  -- the weight of a list of characters
  abbrev pub weigh : List ℕ → ℕ
  weigh [] = 0
  weigh (c ∷ s) = mark c + weigh s

  -- A call that returns has left a format of weight at most `n`.
  abbrev pub Shrinks {ℓ} : {A : Type ℓ} → Run (A × List ℕ) → ℕ → Type 0
  Shrinks (ok x) n = weigh x.1 ≤ n
  Shrinks abort n = Unit
  Shrinks fault n = Unit

  either :
      {A : Type 0} (b : Bool) (m k : Run (A × List ℕ)) (n : ℕ)
      → Shrinks m n
      → Shrinks k n
      → Shrinks (if b then m else k) n
  either true m k n h g = h
  either false m k n h g = g

  after :
      {A B : Type 0} (m : Run B) (f : B → Run (A × List ℕ)) (n : ℕ)
      → ((b : B) → Shrinks (f b) n)
      → Shrinks (m >>= f) n
  after (ok b) f n h = h b
  after abort f n h = tt
  after fault f n h = tt

  chain :
      {A B : Type 0} (m : Run (B × List ℕ)) (f : B × List ℕ → Run (A × List ℕ)) (n : ℕ)
      → Shrinks m n
      → ((b : B × List ℕ) → weigh b.1 ≤ n → Shrinks (f b) n)
      → Shrinks (m >>= f) n
  chain (ok b) f n p h = h b p
  chain abort f n p h = tt
  chain fault f n p h = tt

  weigh-tail : (c : ℕ) (s : List ℕ) → weigh s ≤ weigh (c ∷ s)
  weigh-tail c s = ground arith

  pub weaken : {A : Type 0} (m : Run (A × List ℕ)) {k n : ℕ} → Shrinks m k → k ≤ n → Shrinks m n
  weaken (ok x) h p = omega (arith, h, p)
  weaken abort h p = tt
  weaken fault h p = tt

  fetch_digits-Shrinks : (n : ℕ) (fmt : List ℕ) → Shrinks (fetch_digits n fmt) (weigh fmt)
  unfolding fetch_digits
  fetch_digits-Shrinks n [] = tt
  fetch_digits-Shrinks n (c ∷ fmt) = elim (Bool-cases (is_digit c)) [
    | inr e ↦ rw (fetch_digits, e) (omega arith)
    | inl e ↦
        let next = n * 10 + (c - 48) in
        elim (Bool-cases (ltb next (pow2 31))) [
          | inl f ↦
              rw (fetch_digits, e, f)
                (weaken (fetch_digits next fmt) (fetch_digits-Shrinks next fmt) (weigh-tail c fmt))
          | inr f ↦ rw (fetch_digits, e, f) tt
        ]
  ]

  module _ (dir : FormatDirective) where
    set_argno-Shrinks :
        (argno : ℕ) (ret fmt : List ℕ) (prev : Option FormatDirective) (ind : ℕ)
        → weigh ret ≤ weigh fmt
        → Shrinks (set_argno argno ret fmt dir prev ind) (weigh fmt)
    unfolding set_argno
    set_argno-Shrinks argno [] fmt prev ind p = tt
    set_argno-Shrinks argno (c ∷ ret) fmt prev ind p =
        either (same_numbering prev _) (ok (_, _)) abort (weigh fmt) (ground arith) tt

    fetch_format_argno-Shrinks :
        (fmt : List ℕ) (prev : Option FormatDirective) (ind : ℕ)
        → Shrinks (fetch_format_argno fmt dir prev ind) (weigh fmt)
    unfolding fetch_format_argno
    fetch_format_argno-Shrinks [] prev ind = tt
    fetch_format_argno-Shrinks (c ∷ fmt) prev ind =
        either (c == 48) (ok (dir, c ∷ fmt)) _ (weigh (c ∷ fmt)) (omega arith) (
          chain (fetch_digits 0 (c ∷ fmt)) _ (weigh (c ∷ fmt)) (fetch_digits-Shrinks 0 (c ∷ fmt))
            (λ b p. set_argno-Shrinks b.0 b.1 (c ∷ fmt) prev ind p))

    fetch_format_field_width-Shrinks :
        (fmt : List ℕ) → Shrinks (fetch_format_field_width fmt dir) (weigh fmt)
    unfolding fetch_format_field_width
    fetch_format_field_width-Shrinks [] = tt
    fetch_format_field_width-Shrinks (c ∷ fmt) =
        let n = weigh (c ∷ fmt) in
        either (c == 42) _ _ n (weigh-tail c fmt) (
          either (is_digit c) _ _ n
            (either (c == 48) abort _ n tt
              (chain (fetch_digits 0 (c ∷ fmt)) _ n (fetch_digits-Shrinks 0 (c ∷ fmt)) (λ b p. p)))
            (omega arith))

    fetch_precision_number-Shrinks :
        (fmt : List ℕ) → Shrinks (fetch_precision_number fmt dir) (weigh fmt)
    unfolding fetch_precision_number
    fetch_precision_number-Shrinks [] = tt
    fetch_precision_number-Shrinks (c ∷ fmt) =
        let n = weigh (c ∷ fmt) in
        either (c == 42) _ _ n (weigh-tail c fmt)
          (chain (fetch_digits 0 (c ∷ fmt)) _ n (fetch_digits-Shrinks 0 (c ∷ fmt)) (λ b p. p))

    fetch_format_precision-Shrinks :
        (fmt : List ℕ) → Shrinks (fetch_format_precision fmt dir) (weigh fmt)
    unfolding fetch_format_precision
    fetch_format_precision-Shrinks [] = tt
    fetch_format_precision-Shrinks (c ∷ fmt) =
        let n = weigh (c ∷ fmt) in
        after (is_class period_id c) _ n (λ b.
          either b _ _ n
            (weaken (fetch_precision_number fmt dir) (fetch_precision_number-Shrinks fmt)
              (weigh-tail c fmt))
            (omega arith))

    fetch_specifier-Shrinks : (fmt : List ℕ) → Shrinks (fetch_specifier fmt dir) (weigh fmt)
    unfolding fetch_specifier
    fetch_specifier-Shrinks [] = tt
    fetch_specifier-Shrinks (c ∷ fmt) =
        let n = weigh (c ∷ fmt) in
        either (c == 0) _ _ n (weigh-tail c fmt)
          (after (is_class specifier_id c) _ n (λ b. either b _ abort n (weigh-tail c fmt) tt))

  weigh-after_modifier : (fmt : List ℕ) → weigh (after_modifier fmt) ≤ weigh fmt
  weigh-after_modifier [] = omega arith
  weigh-after_modifier (c ∷ fmt) = weigh-tail c fmt

  fetch_format_length-Shrinks :
      (sizes : Sizes) (fmt : List ℕ) (dir : FormatDirective)
      → Shrinks (fetch_format_length sizes fmt dir) (weigh fmt)
  unfolding fetch_format_length
  fetch_format_length-Shrinks sizes [] dir = tt
  fetch_format_length-Shrinks sizes (c ∷ fmt) dir =
      let n = weigh (c ∷ fmt) in
      let below = weigh-tail c fmt in
      let below' = weigh-after_modifier fmt in
      let plain = record dir { length_bytes = 0; length_mod = 0; extended = false } in
      let twice = record plain {
        length_bytes = doubled_bytes sizes c;
        length_mod = c;
        extended = true;
      } in
      let once = record plain { length_bytes = modifier_bytes sizes c; length_mod = c } in
      either (doubled c fmt) (fetch_specifier (after_modifier fmt) twice) _ n
        (weaken (fetch_specifier (after_modifier fmt) twice)
          (fetch_specifier-Shrinks twice (after_modifier fmt)) (omega (arith, below, below')))
        (either (modifier_bytes sizes c == 0) (fetch_specifier (c ∷ fmt) plain)
          (fetch_specifier fmt once) n (fetch_specifier-Shrinks plain (c ∷ fmt))
          (weaken (fetch_specifier fmt once) (fetch_specifier-Shrinks once fmt) below))

  fetch_format_flags-Shrinks :
      (fmt : List ℕ) (dir : FormatDirective) → Shrinks (fetch_format_flags fmt dir) (weigh fmt)
  unfolding fetch_format_flags
  fetch_format_flags-Shrinks [] dir = tt
  fetch_format_flags-Shrinks (c ∷ fmt) dir =
      let n = weigh (c ∷ fmt) in
      after (is_class flag_id c) _ n (λ b.
        either b _ _ n
          (after (set_format_flag c dir.flags) _ n (λ flags.
            weaken (fetch_format_flags fmt (record dir { flags = flags }))
              (fetch_format_flags-Shrinks fmt (record dir { flags = flags })) (weigh-tail c fmt)))
          (omega arith))

  pub fetch_directive-Shrinks :
      (sizes : Sizes) (fmt : List ℕ) (prev : Option FormatDirective) (i : ℕ)
      → Shrinks (fetch_directive sizes fmt prev i) (weigh fmt)
  unfolding fetch_directive
  fetch_directive-Shrinks sizes fmt prev i =
      let n = weigh fmt in
      chain (fetch_format_argno fmt blank prev i) _ n (fetch_format_argno-Shrinks blank fmt prev i)
        (λ a p.
          chain (fetch_format_flags a.1 a.0) _ n
            (weaken (fetch_format_flags a.1 a.0) (fetch_format_flags-Shrinks a.1 a.0) p)
            (λ b q.
              chain (fetch_format_field_width b.1 b.0) _ n
                (weaken (fetch_format_field_width b.1 b.0)
                  (fetch_format_field_width-Shrinks b.0 b.1) q)
                (λ c r.
                  chain (fetch_format_precision c.1 c.0) _ n
                    (weaken (fetch_format_precision c.1 c.0)
                      (fetch_format_precision-Shrinks c.0 c.1) r)
                    (λ d s.
                      chain (fetch_format_length sizes d.1 d.0) _ n
                        (weaken (fetch_format_length sizes d.1 d.0)
                          (fetch_format_length-Shrinks sizes d.1 d.0) s)
                        (λ e t.
                          after (save_text (37 ∷ fmt) (suc (length fmt) - length e.1) e.0) _ n
                            (λ _. t))))))
