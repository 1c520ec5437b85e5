-- ===== src/Libc/Env.antt =====
-- The environment of share/libc/stdlib.c: `getenv`, `putenv`, `setenv` and `unsetenv`, over an
-- environment that the analysis does not know.
pub mod Entries
pub mod Safe
use frama_c_snapshot.Prelude.{
  ℕ, zero, suc, ◌+◌, ◌-◌, Bool, true, false, Option, none, some, List, ◌==◌, get_elem?, set,
  if◌then◌else◌,
}
use frama_c_snapshot.Prelude.Bits.{pow2}
use frama_c_snapshot.Prelude.Run.{Run, ok, abort, fault, ◌>>=◌}
use frama_c_snapshot.Libc.Scan.{strlen, strchr}
use frama_c_snapshot.Libc.Entropy.{Entropy, frama_c_nondet, frama_c_interval, frama_c_make_unknown}

abbrev pub arg_max : ℕ
arg_max = 4096

-- `__FC_INITENV_LEN`
abbrev pub initenv_len : ℕ
initenv_len = 64

-- A pointer of the environment: NULL, into `__fc_env_strings` at an offset, or to a string of the
-- program, by its address.
pub data EnvPointer : Type 0 where
  null : EnvPointer
  inside : ℕ → EnvPointer
  outside : ℕ → EnvPointer

pub record Env : Type 0 where
  pub init : Bool
  pub fc_env : List EnvPointer
  pub fc_env_strings : List ℕ

-- What a call leaves, and what it returns.
abbrev pub Result : Type 0 → Type 0
Result A = Run (A × Env × Entropy)

-- `__fc_env[i] = p`
unfoldable pub store : List EnvPointer → ℕ → EnvPointer → Run (List EnvPointer)
store env i p = elim (get_elem? env i) [ none ↦ fault | some _ ↦ ok (set env i p) ]

-- the loop of `__fc_initenv`, for the `n` entries from `i`
unfoldable pub init_entries : ℕ → ℕ → List EnvPointer → Entropy → Run (List EnvPointer × Entropy)
unfolding store
init_entries zero i env e = ok (env, e)
init_entries (suc n) i env e =
    let (o, e') = frama_c_interval 0 (initenv_len - 1) e in
    store env i (inside o) >>= λ env'. init_entries n (i + 1) env' e'

-- the body of `__fc_initenv`, the first time
unfoldable pub make_env : Env → Entropy → Run (Env × Entropy)
unfolding init_entries
make_env s e = frama_c_make_unknown s.fc_env_strings (initenv_len - 1) e >>= λ (strings, e').
    init_entries arg_max 0 s.fc_env e' >>= λ (env, e'').
    ok (record { init = true; fc_env = env; fc_env_strings = strings }, e'')

unfoldable pub fc_initenv : Env → Entropy → Run (Env × Entropy)
unfolding make_env
fc_initenv s e = elim (s.init) [ true ↦ ok (s, e) | false ↦ make_env s e ]

-- `__fc_env[Frama_C_interval(0,ARG_MAX-1)] = p`, and the return of `r` behind it
unfoldable pub assign_entry : EnvPointer → ℕ → Env → Entropy → Result ℕ
unfolding store
assign_entry p r s e =
    let (i, e') = frama_c_interval 0 (arg_max - 1) e in
    store s.fc_env i p >>= λ env. ok (r, record s { fc_env = env }, e')

-- the read of `__fc_env[Frama_C_interval(0, ARG_MAX-1)]`
unfoldable pub read_entry : Env → Entropy → Result EnvPointer
read_entry s e =
    let (i, e') = frama_c_interval 0 (arg_max - 1) e in
    elim (get_elem? s.fc_env i) [ none ↦ fault | some p ↦ ok (p, s, e') ]

-- behind the annotation of `getenv`
unfoldable pub look_up : Env → Entropy → Result EnvPointer
unfolding fc_initenv read_entry
look_up s e = fc_initenv s e >>= λ (s', e1).
    let (found, e2) = frama_c_nondet 0 1 e1 in
    elim (found == 0) [ true ↦ ok (null, s', e2) | false ↦ read_entry s' e2 ]

-- `getenv`; its annotation, that the name has no `=`, aborts where it does not hold.
unfoldable pub getenv : List ℕ → Env → Entropy → Result EnvPointer
unfolding look_up
getenv name s e = strchr name 61 >>= λ eq. elim eq [ some _ ↦ abort | none ↦ look_up s e ]

-- Behind the annotations of `putenv`. The result in the first case is any `int`.
unfoldable pub put_entry : ℕ → Env → Entropy → Result ℕ
unfolding fc_initenv assign_entry
put_entry addr s e = fc_initenv s e >>= λ (s', e1).
    let (full, e2) = frama_c_nondet 0 1 e1 in
    elim (full == 0) [
      | true ↦ ok (0, s', e2)
      | false ↦
          let (failed, e3) = frama_c_nondet 0 1 e2 in
          let (r, e4) = frama_c_interval (pow2 31) (pow2 31 - 1) e3 in
          elim (failed == 0) [ true ↦ assign_entry (outside addr) 0 s' e3 | false ↦ ok (r, s', e4) ]
    ]

-- `putenv` of `string` at the address `addr`. Its annotations, that the string has a `=` and that
-- this is not its first character, abort where they do not hold.
unfoldable pub putenv : ℕ → List ℕ → Env → Entropy → Result ℕ
unfolding put_entry
putenv addr string s e = strchr string 61 >>= λ separator. elim separator [
  | none ↦ abort
  | some i ↦ elim (i == 0) [ true ↦ abort | false ↦ put_entry addr s e ]
]

-- the word of -1
abbrev pub minus_one : ℕ
minus_one = pow2 32 - 1

-- the tests of `setenv` and `unsetenv` on the name: whether it is refused
unfoldable pub bad_name : List ℕ → Run Bool
bad_name name = strchr name 61 >>= λ eq. elim eq [
  | some _ ↦ ok true
  | none ↦ strlen name >>= λ namelen. ok (namelen == 0)
]

-- the choice of `setenv` to make the strings unknown again
unfoldable pub fresh_strings : Env → Entropy → Run (Env × Entropy)
fresh_strings s e =
    let (fresh, e') = frama_c_nondet 0 1 e in
    elim (fresh == 0) [
      | true ↦ ok (s, e')
      | false ↦ frama_c_make_unknown s.fc_env_strings (initenv_len - 1) e' >>= λ (strings, e'').
          ok (record s { fc_env_strings = strings }, e'')
    ]

-- the assignment of `setenv`, whose two intervals are read from left to right
unfoldable pub set_entry : Env → Entropy → Result ℕ
unfolding store
set_entry s e =
    let (i, e1) = frama_c_interval 0 (arg_max - 1) e in
    let (o, e2) = frama_c_interval 0 (initenv_len - 1) e1 in
    store s.fc_env i (inside o) >>= λ env. ok (0, record s { fc_env = env }, e2)

unfoldable pub setenv : List ℕ → Env → Entropy → Result ℕ
unfolding bad_name fc_initenv fresh_strings set_entry
setenv name s e = bad_name name >>= λ bad. elim bad [
  | true ↦ ok (minus_one, s, e)
  | false ↦ fc_initenv s e >>= λ (s', e1).
      let (full, e2) = frama_c_nondet 0 1 e1 in
      elim (full == 0) [
        | false ↦ ok (minus_one, s', e2)
        | true ↦ fresh_strings s' e2 >>= λ (s'', e3). set_entry s'' e3
      ]
]

unfoldable pub unsetenv : List ℕ → Env → Entropy → Result ℕ
unfolding bad_name fc_initenv assign_entry
unsetenv name s e = bad_name name >>= λ bad. elim bad [
  | true ↦ ok (minus_one, s, e)
  | false ↦ fc_initenv s e >>= λ (s', e1).
      let (found, e2) = frama_c_nondet 0 1 e1 in
      elim (found == 0) [ true ↦ ok (0, s', e2) | false ↦ assign_entry null 0 s' e2 ]
]
