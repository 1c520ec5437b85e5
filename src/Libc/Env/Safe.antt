-- ===== src/Libc/Env/Safe.antt =====
-- The environment stays well formed: what `getenv` returns is NULL, a string of the program, or a
-- place in the environment's own strings, which end.
use frama_c_snapshot.Prelude.{
  ℕ, zero, suc, ◌-◌, ◌≡◌, ◌⊎◌, refl, Bool, true, false, none, some, List, ◌==◌, inl, inr,
  Option-cases, Bool-cases, arith, length, get_elem?, replicate, length-replicate,
}
use mathlib.Core.Path.{subst}
use frama_c_snapshot.Prelude.Bits.{pow2}
use frama_c_snapshot.Prelude.Run.{ok, abort, ◌>>=◌, Ensures, Ensures-bind, Ensures-elim}
use frama_c_snapshot.Libc.Scan.Length.{IsString, strlen-IsString, strchr-first_at, first_at}
use frama_c_snapshot.Libc.Entropy.{Entropy, frama_c_interval, frama_c_nondet, frama_c_make_unknown}
use frama_c_snapshot.Libc.Entropy.Bounds.{frama_c_interval-le}
use frama_c_snapshot.Libc.Env.Entries.{
  IsValidPointer, AreEntries, AreStrings, IsValid, Keeps, get_elem?_at, store-AreEntries,
  unknown-AreStrings, fc_initenv-IsValid, assign_entry-IsValid,
}
use frama_c_snapshot.Libc.Env.{
  EnvPointer, null, inside, outside, Env, Result, arg_max, initenv_len, store, fc_initenv,
  assign_entry, look_up, getenv, put_entry, putenv, bad_name, fresh_strings, set_entry, read_entry,
  minus_one, setenv, unsetenv,
}

module _ {A : Type 0} (P : A → Type 0) where
  abbrev Kept : A × Env × Entropy → Type 0
  Kept (a, s, e) = P a × IsValid s

  -- what follows a call of `__fc_initenv`
  after_initenv :
      (s : Env) (e : Entropy) (f : Env × Entropy → Result A)
      → IsValid s
      → ((s' : Env) (e' : Entropy) → IsValid s' → Keeps (f (s', e')) P)
      → Keeps (fc_initenv s e >>= f) P
  after_initenv s e f v k =
      Ensures-bind (fc_initenv s e) f (λ (s', e'). IsValid s') Kept (fc_initenv-IsValid s e v)
        (λ (s', e') v'. k s' e' v')

read_entry-IsValid : (s : Env) (e : Entropy) → IsValid s → Keeps (read_entry s e) IsValidPointer
unfolding read_entry
read_entry-IsValid s e v =
    let last = arg_max - 1 in
    let (i, e') = frama_c_interval 0 last e in
    let range = frama_c_interval-le 0 last e (omega arith) (omega arith) in
    let (p, q) = get_elem?_at s.fc_env i (omega (arith, range.1, v.entries.0)) in
    ((p, s, e'), rw (read_entry, q) refl, (v.entries.1 i p q, v))

set_entry-IsValid : (s : Env) (e : Entropy) → IsValid s → Keeps (set_entry s e) (λ r. r ≡ 0)
unfolding set_entry
set_entry-IsValid s e v =
    let (i, e1) = frama_c_interval 0 (arg_max - 1) e in
    let (o, e2) = frama_c_interval 0 (initenv_len - 1) e1 in
    let index = frama_c_interval-le 0 (arg_max - 1) e (omega arith) (omega arith) in
    let offset = frama_c_interval-le 0 (initenv_len - 1) e1 (omega arith) (omega arith) in
    Ensures-bind (store s.fc_env i (inside o)) (λ env. ok (0, record s { fc_env = env }, e2))
      AreEntries (Kept (λ r. r ≡ 0))
      (store-AreEntries s.fc_env i (inside o) (omega (arith, index.1)) (omega (arith, offset.1))
        v.entries)
      (λ env k. (
        (0, record s { fc_env = env }, e2),
        refl,
        (refl, record { entries = k; strings = v.strings }),
      ))

fresh_strings-IsValid :
    (s : Env) (e : Entropy) → IsValid s → Ensures (fresh_strings s e) (λ (s', e'). IsValid s')
unfolding fresh_strings
fresh_strings-IsValid s e v =
    let (fresh, e') = frama_c_nondet 0 1 e in
    let unknown = frama_c_make_unknown s.fc_env_strings (initenv_len - 1) e' >>= λ (strings, e'').
    ok (record s { fc_env_strings = strings }, e'') in
    Ensures-elim (fresh == 0) (ok (s, e')) unknown (λ (s', e'). IsValid s') ((s, e'), refl, v)
      (Ensures-bind (frama_c_make_unknown s.fc_env_strings (initenv_len - 1) e')
        (λ (strings, e''). ok (record s { fc_env_strings = strings }, e''))
        (λ (s', e'). AreStrings s') (λ (s', e'). IsValid s')
        (unknown-AreStrings s.fc_env_strings e' v.strings)
        (λ (strings, e'') h. (
          (record s { fc_env_strings = strings }, e''),
          refl,
          record { entries = v.entries; strings = h },
        )))

-- The names that `setenv` and `unsetenv` refuse: the empty one, and those with a `=`.
abbrev pub refused : List ℕ → Bool
refused cs = elim (first_at 0 61 cs) [ some _ ↦ true | none ↦ length cs == 0 ]

pub bad_name-refused : {name cs : List ℕ} → IsString name cs → bad_name name ≡ ok (refused cs)
unfolding bad_name
bad_name-refused {name} {cs} h =
    let (len, _) = strlen-IsString 0 h in
    elim (Option-cases (first_at 0 61 cs)) [
      | inl e ↦ rw (strchr-first_at 61 h, refused, e, len) refl
      | inr (i, e) ↦ rw (strchr-first_at 61 h, refused, e) refl
    ]

look_up-IsValid : (s : Env) (e : Entropy) → IsValid s → Keeps (look_up s e) IsValidPointer
unfolding look_up
look_up-IsValid s e v = after_initenv IsValidPointer s e _ v (λ s' e1 v'.
    let (found, e2) = frama_c_nondet 0 1 e1 in
    Ensures-elim (found == 0) (ok (null, s', e2)) (read_entry s' e2) (Kept IsValidPointer)
      ((null, s', e2), refl, (tt, v')) (read_entry-IsValid s' e2 v'))

put_entry-IsValid :
    (addr : ℕ) (s : Env) (e : Entropy) → IsValid s → Keeps (put_entry addr s e) (λ r. Unit {0})
unfolding put_entry
put_entry-IsValid addr s e v =
    after_initenv (λ r. Unit {0}) s e _ v
      (λ s' e1 v'.
        let (full, e2) = frama_c_nondet 0 1 e1 in
        let (failed, e3) = frama_c_nondet 0 1 e2 in
        let (r, e4) = frama_c_interval (pow2 31) (pow2 31 - 1) e3 in
        let assigned = assign_entry (outside addr) 0 s' e3 in
        let any_int : Result ℕ = ok (r, s', e4) in
        let K = Kept (λ (r : ℕ). Unit {0}) in
        let ((x, s'', e5), f, (_, v'')) = assign_entry-IsValid (outside addr) 0 s' e3 tt v' in
        Ensures-elim (full == 0) (ok (0, s', e2))
          (elim (failed == 0) [ true ↦ assigned | false ↦ any_int ]) K ((0, s', e2), refl, (tt, v'))
          (Ensures-elim (failed == 0) assigned any_int K ((x, s'', e5), f, (tt, v''))
            ((r, s', e4), refl, (tt, v'))))

-- `getenv` returns for the names with no `=`, and aborts for the others.
abbrev pub GetenvEnds : List ℕ → List ℕ → Env → Entropy → Type 0
GetenvEnds name cs s e = elim (first_at 0 61 cs) [
  | none ↦ Keeps (getenv name s e) IsValidPointer
  | some i ↦ getenv name s e ≡ abort
]

getenv-GetenvEnds :
    {name cs : List ℕ} (s : Env) (e : Entropy)
    → IsString name cs
    → IsValid s
    → GetenvEnds name cs s e
unfolding getenv
getenv-GetenvEnds {name} {cs} s e h v = elim (Option-cases (first_at 0 61 cs)) [
  | inl q ↦ rw (q, GetenvEnds, strchr-first_at 61 h, q) (look_up-IsValid s e v)
  | inr (i, q) ↦ rw (q, GetenvEnds, strchr-first_at 61 h, q) refl
]

-- `putenv` returns for the strings with a `=` behind their first character, and aborts for the
-- others.
abbrev pub PutenvEnds : ℕ → List ℕ → List ℕ → Env → Entropy → Type 0
PutenvEnds addr string cs s e = elim (first_at 0 61 cs) [
  | none ↦ putenv addr string s e ≡ abort
  | some i ↦ elim (i == 0) [
    | true ↦ putenv addr string s e ≡ abort
    | false ↦ Keeps (putenv addr string s e) (λ r. Unit {0})
  ]
]

putenv-PutenvEnds :
    {string cs : List ℕ} (addr : ℕ) (s : Env) (e : Entropy)
    → IsString string cs
    → IsValid s
    → PutenvEnds addr string cs s e
unfolding putenv
putenv-PutenvEnds {string} {cs} addr s e h v = elim (Option-cases (first_at 0 61 cs)) [
  | inl q ↦ rw (q, PutenvEnds, strchr-first_at 61 h, q) refl
  | inr (i, q) ↦ elim (Bool-cases (i == 0)) [
    | inl z ↦ rw (q, PutenvEnds, z, strchr-first_at 61 h, q, ◌>>=◌, z) refl
    | inr z ↦
        rw (q, PutenvEnds, z, strchr-first_at 61 h, q, ◌>>=◌, z) (put_entry-IsValid addr s e v)
  ]
]

-- `setenv` and `unsetenv` return 0 or -1.
abbrev pub IsStatus : ℕ → Type 0
IsStatus r = (r ≡ 0) ⊎ (r ≡ minus_one)

setenv-IsValid :
    {name cs : List ℕ} (s : Env) (e : Entropy)
    → IsString name cs
    → IsValid s
    → Keeps (setenv name s e) IsStatus
unfolding setenv
setenv-IsValid {cs = cs} s e h v = rw (bad_name-refused h) (
    Ensures-elim (refused cs) (ok (minus_one, s, e)) (fc_initenv s e >>= _) (Kept IsStatus)
      ((minus_one, s, e), refl, (inr refl, v))
      (after_initenv IsStatus s e _ v (λ s' e1 v'.
        let (full, e2) = frama_c_nondet 0 1 e1 in
        let refusal : Result ℕ = ok (minus_one, s', e2) in
        let assigned = fresh_strings s' e2 >>= λ (s'', e3). set_entry s'' e3 in
        Ensures-elim (full == 0) assigned refusal (Kept IsStatus)
          (Ensures-bind (fresh_strings s' e2) (λ (s'', e3). set_entry s'' e3)
            (λ (s'', e3). IsValid s'') (Kept IsStatus) (fresh_strings-IsValid s' e2 v')
            (λ (s'', e3) v''.
              let (x, f, (z, w)) = set_entry-IsValid s'' e3 v'' in (x, f, (inl z, w))))
          ((minus_one, s', e2), refl, (inr refl, v')))))

unsetenv-IsValid :
    {name cs : List ℕ} (s : Env) (e : Entropy)
    → IsString name cs
    → IsValid s
    → Keeps (unsetenv name s e) IsStatus
unfolding unsetenv
unsetenv-IsValid {cs = cs} s e h v = rw (bad_name-refused h) (
    Ensures-elim (refused cs) (ok (minus_one, s, e)) (fc_initenv s e >>= _) (Kept IsStatus)
      ((minus_one, s, e), refl, (inr refl, v))
      (after_initenv IsStatus s e _ v (λ s' e1 v'.
        let (found, e2) = frama_c_nondet 0 1 e1 in
        let (x, f, (z, w)) = assign_entry-IsValid null 0 s' e2 tt v' in
        Ensures-elim (found == 0) (ok (0, s', e2)) (assign_entry null 0 s' e2) (Kept IsStatus)
          ((0, s', e2), refl, (inl refl, v')) (x, f, (inl z, w)))))

-- On a well-formed environment and a string, the functions leave a well-formed environment, whatever
-- the values are that are not known. `getenv` aborts for a name with a `=`, by its annotation, and
-- returns for any other; its result is NULL, a string of the program or a place in the
-- environment's strings. `putenv` aborts for a string with no `=` or with a `=` as its first
-- character, by its annotations, and returns for any other. `setenv` and `unsetenv` return 0 or -1;
-- for the empty name and for a name with a `=` they return -1 and change nothing.
pub env-IsValid :
    {name cs : List ℕ} (addr : ℕ) (s : Env) (e : Entropy)
    → IsString name cs
    → IsValid s
    → GetenvEnds name cs s e
      × PutenvEnds addr name cs s e
      × Keeps (setenv name s e) IsStatus
      × Keeps (unsetenv name s e) IsStatus
      × (refused cs ≡ true
          → (setenv name s e ≡ ok (minus_one, s, e)) × (unsetenv name s e ≡ ok (minus_one, s, e)))
unfolding setenv unsetenv
env-IsValid addr s e h v = (
  getenv-GetenvEnds s e h v,
  putenv-PutenvEnds addr s e h v,
  setenv-IsValid s e h v,
  unsetenv-IsValid s e h v,
  λ bad. (rw (setenv, bad_name-refused h, bad) refl, rw (unsetenv, bad_name-refused h, bad) refl),
)

-- The environment before any call.
abbrev pub initial : Env
initial = record {
  init = false;
  fc_env = replicate arg_max null;
  fc_env_strings = replicate initenv_len 0;
}

replicate-null :
    (n i : ℕ) (p : EnvPointer) → get_elem? (replicate n null) i ≡ some p → IsValidPointer p
replicate-null zero i p e = cc
replicate-null (suc n) zero p e = let q : null ≡ p = cc in subst IsValidPointer q tt
replicate-null (suc n) (suc i) p e = replicate-null n i p e

pub initial-IsValid : IsValid initial
initial-IsValid = record {
  entries = (length-replicate arg_max null, replicate-null arg_max);
  strings = (refl, refl);
}
