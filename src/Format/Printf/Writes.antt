-- ===== src/Format/Printf/Writes.antt =====
-- What `validate_format` of e_acsl_format.h says of the directives that write to memory.
use frama_c_snapshot.Prelude.{
  ℕ, zero, suc, ◌+◌, ◌%◌, ◌≤◌, ◌<◌, ◌≡◌, refl, sym, ap, ◌∙◌, Bool, true, false, Option, none, some,
  List, [], ◌∷◌, get_elem?, length, ltb, leb, ◌&&◌, ◌||◌, ◌==◌, ◌⊎◌, inl, inr, Bool-cases, arith,
  if◌then◌else◌,
}
use frama_c_snapshot.Prelude.Bits.{pow2}
use frama_c_snapshot.Prelude.Run.{Run, ok, abort, fault, ◌>>=◌, ◌>>◌, vassert, of_option}
use frama_c_snapshot.Segment.Words.{Bytes}
use frama_c_snapshot.Checked.Spaces
use frama_c_snapshot.Format.Abbrev.{Sizes, Abbrev}
use frama_c_snapshot.Format.Directive.{FormatDirective}
use frama_c_snapshot.Format.Validate.{validate_applications, infer_n_abbr, validate_format_type}
use frama_c_snapshot.Format.Printf.{
  WideTypes, Buffer, written_bytes, validate_specifier, validate_directives,
  validate_overlapping_buffer,
}

-- two checks that both return
both_return : (r rest : Run (Unit {0})) → (r >> rest) ≡ ok tt → (r ≡ ok tt) × (rest ≡ ok tt)
both_return (ok tt) rest h = (refl, h)
both_return abort rest h = absurd (ground arith)
both_return fault rest h = absurd (ground arith)

-- the checks of `%n` behind its type
writes_return :
    (r : Run (Unit {0})) (w : Run Bool) (d : Run (Unit {0}))
    → (r >> (w >>= λ there. vassert there >> d)) ≡ ok tt
    → (w ≡ ok true) × (d ≡ ok tt)
writes_return (ok tt) (ok true) d h = (refl, h)
writes_return (ok tt) (ok false) d h = absurd (ground arith)
writes_return (ok tt) abort d h = absurd (ground arith)
writes_return (ok tt) fault d h = absurd (ground arith)
writes_return abort w d h = absurd (ground arith)
writes_return fault w d h = absurd (ground arith)

typed_return :
    (a : Run Abbrev) (check : Abbrev → Run (Unit {0})) (w : Run Bool) (d : Run (Unit {0}))
    → (a >>= λ expected_t. check expected_t >> (w >>= λ there. vassert there >> d)) ≡ ok tt
    → (w ≡ ok true) × (d ≡ ok tt)
typed_return (ok x) check w d h = writes_return (check x) w d h
typed_return abort check w d h = absurd (ground arith)
typed_return fault check w d h = absurd (ground arith)

-- the buffer of a call ends inside of the address space
abbrev pub EndsBelow : Buffer → Type 0
EndsBelow none = Unit {0}
EndsBelow (some (place, size)) = place + size < pow2 64

-- No address is one of the buffer's and of the region's.
abbrev pub IsApart : Buffer → ℕ → ℕ → Type 0
IsApart none addr n = Unit {0}
IsApart (some (place, size)) addr n =
    (x : ℕ) → place ≤ x → x < place + size → addr ≤ x → x < addr + n → ⊥

overlapping-IsApart :
    (buffer : Buffer) (addr n : ℕ)
    → EndsBelow buffer
    → addr + n < pow2 64
    → validate_overlapping_buffer buffer addr n ≡ ok tt
    → IsApart buffer addr n
unfolding validate_overlapping_buffer Spaces.disjoint_spaces
overlapping-IsApart none addr n ends fits h = tt
overlapping-IsApart (some (place, size)) addr n ends fits h =
    let wrap : (place + size) % pow2 64 ≡ place + size = omega arith in
    let wrap' : (addr + n) % pow2 64 ≡ addr + n = omega arith in
    let test : (leb (place + size) addr || leb (addr + n) place) ≡ true =
      asserted (leb (place + size) addr || leb (addr + n) place) (rw (wrap, wrap') at h) in
    λ x lo hi lo' hi'. ground arith
  where
    asserted : (b : Bool) → vassert b ≡ ok tt → b ≡ true
    asserted true e = refl
    asserted false e = absurd (ground arith)

-- a round of the loop of `validate_format`
round_return :
    (r : Run (Unit {0})) (missing : Bool) (o : Option ℕ) (f : ℕ → Run (Unit {0}))
    (rest : Run (Unit {0}))
    → (r >> (if missing then abort else of_option o >>= λ addr. f addr >> rest)) ≡ ok tt
    → (addr : ℕ) × (o ≡ some addr) × (f addr ≡ ok tt) × (rest ≡ ok tt)
round_return (ok tt) false (some addr) f rest h =
    let (p, q) = both_return (f addr) rest h in (addr, refl, p, q)
round_return (ok tt) false none f rest h = absurd (ground arith)
round_return (ok tt) true o f rest h = absurd (ground arith)
round_return abort missing o f rest h = absurd (ground arith)
round_return fault missing o f rest h = absurd (ground arith)

module _ (t : Spaces.Tracking) (m : Bytes) (sizes : Sizes) (wides : WideTypes) (fmtdesc : List ℕ)
    (buffer : Buffer) where
  -- what the checks let a directive write to
  abbrev Checks : FormatDirective → ℕ → Type 0
  Checks dir addr =
      (t.writeable addr (written_bytes sizes dir) addr ≡ ok true)
      × (validate_overlapping_buffer buffer addr (written_bytes sizes dir) ≡ ok tt)

  -- The memory that a directive writes to: its `n` bytes at `addr` are those of the length modifier, or
  -- of an `int` with no modifier; they are writeable, and none of them is one of the buffer's.
  abbrev pub Writes : FormatDirective → ℕ → ℕ → Type 0
  Writes dir addr n =
      ((dir.length_bytes ≡ 0) × (n ≡ sizes.size_int)
        ⊎ (0 < dir.length_bytes) × (n ≡ dir.length_bytes))
      × (t.writeable addr n addr ≡ ok true)
      × ((pow2 64 ≤ addr + n) ⊎ IsApart buffer addr n)

  Checks-Writes :
      (dir : FormatDirective) (addr : ℕ)
      → EndsBelow buffer
      → Checks dir addr
      → Writes dir addr (written_bytes sizes dir)
  Checks-Writes dir addr ends (there, apart) =
      let n = written_bytes sizes dir in
      (
        elim (Bool-cases (dir.length_bytes == 0)) [
          | inl e ↦ inl (ground arith, rw e refl)
          | inr e ↦ inr (ground arith, rw e refl)
        ],
        there,
        elim (Bool-cases (ltb (addr + n) (pow2 64))) [
          | inl e ↦ inr (overlapping-IsApart buffer addr n ends (ground arith) apart)
          | inr e ↦ inl (ground arith)
        ],
      )

  specifier-Checks :
      (dir : FormatDirective) (addr : ℕ)
      → dir.specifier ≡ 110
      → validate_specifier t m sizes wides fmtdesc buffer dir addr ≡ ok tt
      → Checks dir addr
  unfolding validate_specifier
  specifier-Checks dir addr e h =
      let h' = rw (validate_specifier, e) at h in
      typed_return (infer_n_abbr sizes (record dir { specifier = 110 }))
        (λ x. validate_format_type x fmtdesc (record dir { specifier = 110 }))
        (t.writeable addr (written_bytes sizes dir) addr)
        (validate_overlapping_buffer buffer addr (written_bytes sizes dir)) h'

  -- When the directives of a format pass the checks, for a call whose output buffer ends inside of the
  -- address space, each `%n` directive has an argument. It points to memory that is writeable for
  -- the bytes that the directive writes, those of its length modifier or of an `int` with none; and
  -- unless these reach the end of the address space, no address is one of them and one of the
  -- buffer's.
  pub validate_directives-Writes :
      (dirs : List FormatDirective) (args : List ℕ) (k : ℕ) (dir : FormatDirective)
      → validate_directives t m sizes wides fmtdesc buffer dirs args ≡ ok tt
      → get_elem? dirs k ≡ some dir
      → dir.specifier ≡ 110
      → EndsBelow buffer
      → (addr : ℕ) × (n : ℕ) × (get_elem? args dir.index ≡ some addr) × Writes dir addr n
  unfolding validate_directives
  validate_directives-Writes [] args k dir h at e ends = absurd (ground arith)
  validate_directives-Writes (d ∷ dirs) args zero dir h at e ends =
      let same : d ≡ dir = ground arith in
      let (addr, word, spec, rest) =
        round_return (validate_applications d)
          (ltb d.index 0x8000_0000 && leb (length args) d.index) (get_elem? args d.index)
          (validate_specifier t m sizes wides fmtdesc buffer d)
          (validate_directives t m sizes wides fmtdesc buffer dirs args) h in
      let kind : d.specifier ≡ 110 = ap (λ (x : FormatDirective). x.specifier) same ∙ e in
      (
        addr,
        written_bytes sizes dir,
        ap (λ (x : FormatDirective). get_elem? args x.index) (sym same) ∙ word,
        Checks-Writes dir addr ends (rw (← same) (specifier-Checks d addr kind spec)),
      )
  validate_directives-Writes (d ∷ dirs) args (suc k) dir h at e ends =
      let (addr, word, spec, rest) =
        round_return (validate_applications d)
          (ltb d.index 0x8000_0000 && leb (length args) d.index) (get_elem? args d.index)
          (validate_specifier t m sizes wides fmtdesc buffer d)
          (validate_directives t m sizes wides fmtdesc buffer dirs args) h in
      validate_directives-Writes dirs args k dir rest at e ends
