-- ===== src/Libc/Entropy.antt =====
-- share/libc/__fc_builtin.c: the values that an analysis does not know, which the functions read
-- from the volatile variable `Frama_C_entropy_source`. The model has the values that its reads
-- give, one after the other; a write to it decides none of them.
pub mod Bounds
use frama_c_snapshot.Prelude.{
  ℕ, zero, suc, ◌+◌, ◌%◌, Bool, true, false, ◌&&◌, List, ◌==◌, leb, if◌then◌else◌,
}
use frama_c_snapshot.Prelude.Bits.{pow2}
use frama_c_snapshot.Prelude.Run.{Run, ok, ◌>>=◌}
use frama_c_snapshot.Libc.Bytes.{write}

-- The values that are read, of which an `int` takes 32 bits.
abbrev pub Entropy : Type 0
Entropy = ℕ → ℕ

-- a read, and what is left
abbrev pub entropy_source : Entropy → ℕ × Entropy
entropy_source e = (e 0 % pow2 32, λ n. e (suc n))

unfoldable pub frama_c_update_entropy : Entropy → Entropy
frama_c_update_entropy e = (entropy_source e).1

-- `a <= b` of signed words of `w + 1` bits
abbrev pub signed_leb : ℕ → ℕ → ℕ → Bool
signed_leb w a b = leb ((a + pow2 w) % pow2 (suc w)) ((b + pow2 w) % pow2 (suc w))

-- `Frama_C_nondet`, `Frama_C_nondet_ptr`, and, for what their code does, also
-- `Frama_C_float_interval` and `Frama_C_double_interval`
unfoldable pub frama_c_nondet {ℓ} : {A : Type ℓ} → A → A → Entropy → A × Entropy
unfolding frama_c_update_entropy
frama_c_nondet a b e =
    let (aux, e') = entropy_source (frama_c_update_entropy e) in (if aux == 0 then b else a, e')

unfoldable pub frama_c_float_interval {ℓ} : {A : Type ℓ} → A → A → Entropy → A × Entropy
unfolding frama_c_update_entropy
frama_c_float_interval min max e =
    let (aux, e') = entropy_source (frama_c_update_entropy e) in (if aux == 0 then max else min, e')

unfoldable pub frama_c_interval : ℕ → ℕ → Entropy → ℕ × Entropy
unfolding frama_c_update_entropy
frama_c_interval min max e =
    let (aux, e') = entropy_source (frama_c_update_entropy e) in
    (if signed_leb 31 min aux && signed_leb 31 aux max then aux else min, e')

-- `char` is signed and has 8 bits.
unfoldable pub frama_c_char_interval : ℕ → ℕ → Entropy → ℕ × Entropy
unfolding frama_c_update_entropy
frama_c_char_interval min max e =
    let (source, e') = entropy_source (frama_c_update_entropy e) in
    let aux = source % 256 in
    (if signed_leb 7 min aux && signed_leb 7 aux max then aux else min, e')

-- the loop of `Frama_C_make_unknown`, for the `l` offsets from `i`
unfoldable pub fill_unknown : ℕ → ℕ → List ℕ → Entropy → Run (List ℕ × Entropy)
fill_unknown zero i p e = ok (p, e)
fill_unknown (suc l) i p e =
    let (source, e') = entropy_source e in
    write p i (source % 256) >>= λ p'. fill_unknown l (i + 1) p' e'

unfoldable pub frama_c_make_unknown : List ℕ → ℕ → Entropy → Run (List ℕ × Entropy)
unfolding frama_c_update_entropy fill_unknown
frama_c_make_unknown p l e = fill_unknown l 0 p (frama_c_update_entropy e)
