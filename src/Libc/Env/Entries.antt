-- ===== src/Libc/Env/Entries.antt =====
-- Well-formed environments, and the parts of the functions that write to one.
use frama_c_snapshot.Prelude.{
  ℕ, zero, suc, ◌+◌, ◌-◌, ◌≤◌, ◌<◌, ◌≡◌, refl, sym, ap, ◌∙◌, true, some, List, [], ◌∷◌, ◌==◌, inl,
  inr, Bool-cases, arith, length, get_elem?, set, length-set, get_elem?-set_self, get_elem?-set_ne,
}
use mathlib.Core.Path.{subst}
use frama_c_snapshot.Prelude.Run.{ok, ◌>>=◌, Ensures, Ensures-bind, Ensures-elim}
use frama_c_snapshot.Libc.Entropy.{Entropy, frama_c_interval, frama_c_make_unknown}
use frama_c_snapshot.Libc.Entropy.Bounds.{frama_c_interval-le, frama_c_make_unknown-length}
use frama_c_snapshot.Libc.Env.{
  EnvPointer, null, inside, outside, Env, Result, arg_max, initenv_len, store, init_entries,
  make_env, fc_initenv, assign_entry,
}

-- a pointer into the environment's strings points to one of their bytes
abbrev pub IsValidPointer : EnvPointer → Type 0
IsValidPointer null = Unit {0}
IsValidPointer (inside o) = o < initenv_len
IsValidPointer (outside addr) = Unit {0}

abbrev pub AreEntries : List EnvPointer → Type 0
AreEntries env =
    (length env ≡ arg_max)
    × ((i : ℕ) (p : EnvPointer) → get_elem? env i ≡ some p → IsValidPointer p)

-- The strings end with a terminator, so that there is a string at each of their bytes.
abbrev pub AreStrings : List ℕ → Type 0
AreStrings s = (length s ≡ initenv_len) × (get_elem? s (initenv_len - 1) ≡ some 0)

pub record IsValid (s : Env) : Type 0 where
  pub entries : AreEntries s.fc_env
  pub strings : AreStrings s.fc_env_strings

-- A call returns, leaves a well-formed environment and has a result of which `P` holds.
abbrev pub Keeps : {A : Type 0} → Result A → (A → Type 0) → Type 0
Keeps m P = Ensures m (λ (a, s, e). P a × IsValid s)

pub get_elem?_at :
    {A : Type 0} (xs : List A) (i : ℕ) → i < length xs → (x : A) × (get_elem? xs i ≡ some x)
get_elem?_at [] i h = absurd (omega arith)
get_elem?_at (x ∷ xs) zero h = (x, refl)
get_elem?_at (x ∷ xs) (suc i) h = get_elem?_at xs i (omega arith)

set-AreEntries :
    (env : List EnvPointer) (i : ℕ) (p : EnvPointer)
    → i < arg_max
    → IsValidPointer p
    → AreEntries env
    → AreEntries (set env i p)
set-AreEntries env i p lt v (len, all) = (length-set env i p ∙ len, all')
  where
    all' : (j : ℕ) (q : EnvPointer) → get_elem? (set env i p) j ≡ some q → IsValidPointer q
    all' j q e = elim (Bool-cases (j == i)) [
      | inl z ↦
          let same : j ≡ i = ground arith in
          let e' : get_elem? (set env i p) i ≡ some q =
            ap (get_elem? (set env i p)) (sym same) ∙ e in
          let self = get_elem?-set_self env i p (omega (arith, len)) in
          let there : p ≡ q = cc in subst IsValidPointer there v
      | inr z ↦ all j q (sym (get_elem?-set_ne env p (ground arith)) ∙ e)
    ]

pub store-AreEntries :
    (env : List EnvPointer) (i : ℕ) (p : EnvPointer)
    → i < arg_max
    → IsValidPointer p
    → AreEntries env
    → Ensures (store env i p) AreEntries
unfolding store
store-AreEntries env i p lt v h =
    let (q, e) = get_elem?_at env i (omega (arith, h.0)) in
    (set env i p, rw (store, e) refl, set-AreEntries env i p lt v h)

init_entries-AreEntries :
    (n i : ℕ) (env : List EnvPointer) (e : Entropy)
    → i + n ≤ arg_max
    → AreEntries env
    → Ensures (init_entries n i env e) (λ (env', e'). AreEntries env')
unfolding init_entries
init_entries-AreEntries zero i env e le h = ((env, e), refl, h)
init_entries-AreEntries (suc n) i env e le h =
    let last = initenv_len - 1 in
    let (o, e') = frama_c_interval 0 last e in
    let range = frama_c_interval-le 0 last e (omega arith) (omega arith) in
    Ensures-bind (store env i (inside o)) (λ env'. init_entries n (i + 1) env' e') AreEntries
      (λ (env', e'). AreEntries env')
      (store-AreEntries env i (inside o) (omega arith) (omega (arith, range.1)) h)
      (λ env' h'. init_entries-AreEntries n (i + 1) env' e' (omega arith) h')

-- `Frama_C_make_unknown` of all strings but the last terminator
pub unknown-AreStrings :
    (s : List ℕ) (e : Entropy)
    → AreStrings s
    → Ensures (frama_c_make_unknown s (initenv_len - 1) e) (λ (s', e'). AreStrings s')
unknown-AreStrings s e (len, z) =
    let last = initenv_len - 1 in
    let (out, e', f, l, keep) = frama_c_make_unknown-length last s e (omega (arith, len)) in
    ((out, e'), f, (l ∙ len, keep last (omega arith) ∙ z))

make_env-IsValid :
    (s : Env) (e : Entropy) → IsValid s → Ensures (make_env s e) (λ (s', e'). IsValid s')
unfolding make_env
make_env-IsValid s e v =
    Ensures-bind (frama_c_make_unknown s.fc_env_strings (initenv_len - 1) e)
      (λ (strings, e'). init_entries arg_max 0 s.fc_env e' >>= λ (env, e'').
        ok (record { init = true; fc_env = env; fc_env_strings = strings }, e''))
      (λ (s', e'). AreStrings s') (λ (s', e'). IsValid s')
      (unknown-AreStrings s.fc_env_strings e v.strings)
      (λ (strings, e') h.
        Ensures-bind (init_entries arg_max 0 s.fc_env e')
          (λ (env, e''). ok (record { init = true; fc_env = env; fc_env_strings = strings }, e''))
          (λ (env, e''). AreEntries env) (λ (s', e'). IsValid s')
          (init_entries-AreEntries arg_max 0 s.fc_env e' (omega arith) v.entries)
          (λ (env, e'') k. (
            (record { init = true; fc_env = env; fc_env_strings = strings }, e''),
            refl,
            record { entries = k; strings = h },
          )))

pub fc_initenv-IsValid :
    (s : Env) (e : Entropy) → IsValid s → Ensures (fc_initenv s e) (λ (s', e'). IsValid s')
unfolding fc_initenv
fc_initenv-IsValid s e v =
    Ensures-elim s.init (ok (s, e)) (make_env s e) (λ (s', e'). IsValid s') ((s, e), refl, v)
      (make_env-IsValid s e v)

pub assign_entry-IsValid :
    (p : EnvPointer) (r : ℕ) (s : Env) (e : Entropy)
    → IsValidPointer p
    → IsValid s
    → Keeps (assign_entry p r s e) (λ x. x ≡ r)
unfolding assign_entry
assign_entry-IsValid p r s e v h =
    let last = arg_max - 1 in
    let (i, e') = frama_c_interval 0 last e in
    let range = frama_c_interval-le 0 last e (omega arith) (omega arith) in
    Ensures-bind (store s.fc_env i p) (λ env. ok (r, record s { fc_env = env }, e')) AreEntries
      (λ (x, s', e''). (x ≡ r) × IsValid s')
      (store-AreEntries s.fc_env i p (omega (arith, range.1)) v h.entries)
      (λ env k. (
        (r, record s { fc_env = env }, e'),
        refl,
        (refl, record { entries = k; strings = h.strings }),
      ))
