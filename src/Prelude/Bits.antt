-- ===== src/Prelude/Bits.antt =====
-- Words as native numbers: shifts by recursion on the distance, and what `bit_and` and `bit_xor`
-- do to prefixes of words.
use Prim.Native.Nat.{ℕ, zero, suc, ◌+◌, ◌-◌, ◌*◌, ◌/◌, ◌%◌, ◌≤◌, ◌<◌, min, max}
use Prim.Native.Nat.{
  bit_or, bit_or-bitwise, bit_and, bit_xor, digits, bitwise, bit_and-bitwise, bit_xor-bitwise,
  differ,
}
use mathlib.Core.Path.{◌≡◌, refl, ap, ◌∙◌, sym}
use mathlib.Core.Logic.{◌≢◌}
use native.Mathlib.Omega.{arith}
use native.Mathlib.Nat.{add-zero, add-suc}

-- `x >> k`
abbrev pub shr : ℕ → ℕ → ℕ
shr x zero = x
shr x (suc k) = shr x k / 2

-- `2 ^ k`
abbrev pub pow2 : ℕ → ℕ
pow2 zero = 1
pow2 (suc k) = pow2 k * 2

pub pow2_pos : (k : ℕ) → 0 < pow2 k
pow2_pos zero = omega arith
pow2_pos (suc k) = omega (arith, pow2_pos k)

pub shr_halve : (x k : ℕ) → shr (x / 2) k ≡ shr x (suc k)
shr_halve x zero = refl
shr_halve x (suc k) = ap (λ (t : ℕ). t / 2) (shr_halve x k)

pub shr-add : (x j k : ℕ) → shr (shr x j) k ≡ shr x (j + k)
shr-add x j zero = rw add-zero
shr-add x j (suc k) = rw add-suc (ap (λ (t : ℕ). t / 2) (shr-add x j k))

pub shr-zero : (k : ℕ) → shr 0 k ≡ 0
shr-zero zero = refl
shr-zero (suc k) = omega (arith, shr-zero k)

-- a word of `k` bits shifted by `k`
pub shr_all : (x k : ℕ) → x < pow2 k → shr x k ≡ 0
shr_all x zero h = omega arith
shr_all x (suc k) h = sym (shr_halve x k) ∙ shr_all (x / 2) k (omega arith)

pub lt-pow2_of_shr : (x k : ℕ) → shr x k ≡ 0 → x < pow2 k
lt-pow2_of_shr x zero h = omega arith
lt-pow2_of_shr x (suc k) h = omega (arith, lt-pow2_of_shr (x / 2) k (shr_halve x k ∙ h))

pub shr_mono : (x y k : ℕ) → x ≤ y → shr x k ≤ shr y k
shr_mono x y zero h = h
shr_mono x y (suc k) h = omega (arith, shr_mono x y k h)

-- words that agree above `j` digits agree above more
pub shr_up : (a b j k : ℕ) → j ≤ k → shr a j ≡ shr b j → shr a k ≡ shr b k
shr_up a b j k h e =
    let q : j + (k - j) ≡ k = omega arith in
    ap (λ (t : ℕ). shr a t) (sym q)
    ∙ sym (shr-add a j (k - j))
    ∙ ap (λ (t : ℕ). shr t (k - j)) e
    ∙ shr-add b j (k - j)
    ∙ ap (λ (t : ℕ). shr b t) q

pub shr_up_le : (a b j k : ℕ) → j ≤ k → shr a j ≤ shr b j → shr a k ≤ shr b k
shr_up_le a b j k h e =
    let q : j + (k - j) ≡ k = omega arith in
    rw (← q, ← shr-add a j (k - j), ← shr-add b j (k - j)) (shr_mono (shr a j) (shr b j) (k - j) e)

-- the digits that `x >> k` drops, put back as zeros
pub shr_floor : (x k : ℕ) → shr x k * pow2 k ≤ x
shr_floor x zero = omega arith
shr_floor x (suc k) = rw (← shr_halve x k) (omega (arith, shr_floor (x / 2) k))

pub shr_of_floor : (p k : ℕ) → shr (p * pow2 k) k ≡ p
shr_of_floor p zero = omega arith
shr_of_floor p (suc k) =
    sym (shr_halve (p * (pow2 k * 2)) k)
    ∙ (let e : p * (pow2 k * 2) / 2 ≡ p * pow2 k = omega arith in ap (λ (t : ℕ). shr t k) e)
    ∙ shr_of_floor p k

-- The recursion that the native operations stand for, whatever it does to two digits: how many
-- digits it counts makes no difference, and one turn of it splits off the lowest digit.
module _ (out : ℕ → ℕ) (op : ℕ → ℕ → ℕ) where
  digits_done : (count y : ℕ) → digits out op count 0 y ≡ out y
  digits_done zero y = refl
  digits_done (suc count) y = refl

  digits_count :
      (x y few many : ℕ) → x ≤ few → few ≤ many → digits out op many x y ≡ digits out op few x y
  digits_count zero y few many lo hi = digits_done many y ∙ sym (digits_done few y)
  digits_count (suc x) y zero many lo hi = absurd (omega arith)
  digits_count (suc x) y (suc few) zero lo hi = absurd (omega arith)
  digits_count (suc x) y (suc few) (suc many) lo hi =
      ap (λ (t : ℕ). t * 2 + op (suc x % 2) (y % 2))
        (digits_count (suc x / 2) (y / 2) few many (omega arith) (omega arith))

  lowest_digit :
      (x y : ℕ)
      → bitwise out op (suc x) y ≡ bitwise out op (suc x / 2) (y / 2) * 2 + op (suc x % 2) (y % 2)
  lowest_digit x y =
      ap (λ (t : ℕ). t * 2 + op (suc x % 2) (y % 2))
        (digits_count (suc x / 2) (y / 2) (suc x / 2) x (omega arith) (omega arith))

pub zero-bit_and : (n : ℕ) → bit_and 0 n ≡ 0
zero-bit_and n = bit_and-bitwise 0 n

pub bit_and_step : (m n : ℕ) → bit_and m n ≡ bit_and (m / 2) (n / 2) * 2 + min (m % 2) (n % 2)
bit_and_step (suc m) n =
    bit_and-bitwise (suc m) n
    ∙ lowest_digit (λ y. 0) min m n
    ∙ ap (λ (t : ℕ). t * 2 + min (suc m % 2) (n % 2)) (sym (bit_and-bitwise (suc m / 2) (n / 2)))
bit_and_step zero n = omega (arith, zero-bit_and n, zero-bit_and (n / 2))

zero-bit_or : (n : ℕ) → bit_or 0 n ≡ n
zero-bit_or n = bit_or-bitwise 0 n

pub bit_or_step : (m n : ℕ) → bit_or m n ≡ bit_or (m / 2) (n / 2) * 2 + max (m % 2) (n % 2)
bit_or_step (suc m) n =
    bit_or-bitwise (suc m) n
    ∙ lowest_digit (λ y. y) max m n
    ∙ ap (λ (t : ℕ). t * 2 + max (suc m % 2) (n % 2)) (sym (bit_or-bitwise (suc m / 2) (n / 2)))
bit_or_step zero n = omega (arith, zero-bit_or n, zero-bit_or (n / 2))

pub bit_or_half : (a b : ℕ) → bit_or a b / 2 ≡ bit_or (a / 2) (b / 2)
bit_or_half a b = omega (arith, bit_or_step a b)

shr-bit_or : (a b k : ℕ) → shr (bit_or a b) k ≡ bit_or (shr a k) (shr b k)
shr-bit_or a b zero = refl
shr-bit_or a b (suc k) = rw (shr-bit_or a b k) (bit_or_half (shr a k) (shr b k))

-- the digit `k` of an or
pub digit-bit_or : (a b k : ℕ) → shr (bit_or a b) k % 2 ≡ max (shr a k % 2) (shr b k % 2)
digit-bit_or a b k = rw (shr-bit_or a b k) (omega (arith, bit_or_step (shr a k) (shr b k)))

-- the digits of a power of 2
pub digit-pow2_self : (k : ℕ) → shr (pow2 k) k % 2 ≡ 1
digit-pow2_self zero = refl
digit-pow2_self (suc k) =
    rw (← shr_halve (pow2 k * 2) k)
      (let e : pow2 k * 2 / 2 ≡ pow2 k = omega arith in rw e (digit-pow2_self k))

pub digit-pow2_other : (j k : ℕ) → j ≢ k → shr (pow2 j) k % 2 ≡ 0
digit-pow2_other zero zero n = absurd (n refl)
digit-pow2_other (suc j) zero n = omega arith
digit-pow2_other zero (suc k) n = rw (← shr_halve 1 k, shr-zero k)
digit-pow2_other (suc j) (suc k) n = rw (← shr_halve (pow2 j * 2) k) (
    let e : pow2 j * 2 / 2 ≡ pow2 j = omega arith in
    rw e (digit-pow2_other j k (λ q. n (ap suc q))))

pub zero-bit_xor : (b : ℕ) → bit_xor 0 b ≡ b
zero-bit_xor b = bit_xor-bitwise 0 b

differ-zero : (b : ℕ) → differ 0 b ≡ b
differ-zero b = refl

pub bit_xor_step : (a b : ℕ) → bit_xor a b ≡ bit_xor (a / 2) (b / 2) * 2 + differ (a % 2) (b % 2)
bit_xor_step zero b = omega (arith, zero-bit_xor b, zero-bit_xor (b / 2), differ-zero (b % 2))
bit_xor_step (suc a) b =
    bit_xor-bitwise (suc a) b
    ∙ lowest_digit (λ y. y) differ a b
    ∙ ap (λ (t : ℕ). t * 2 + differ (suc a % 2) (b % 2)) (sym (bit_xor-bitwise (suc a / 2) (b / 2)))

differ-le_one : (x y : ℕ) → x ≤ 1 → y ≤ 1 → differ x y ≤ 1
differ-le_one zero y p q = q
differ-le_one (suc x) zero p q = p
differ-le_one (suc x) (suc y) p q = differ-le_one x y (omega arith) (omega arith)

differ-eq_zero : (x y : ℕ) → differ x y ≡ 0 → x ≡ y
differ-eq_zero zero y h = sym h
differ-eq_zero (suc x) zero h = h
differ-eq_zero (suc x) (suc y) h = ap suc (differ-eq_zero x y h)

differ_self : (x : ℕ) → differ x x ≡ 0
differ_self zero = refl
differ_self (suc x) = differ_self x

bit_xor_half : (a b : ℕ) → bit_xor a b / 2 ≡ bit_xor (a / 2) (b / 2)
bit_xor_half a b =
    omega (arith, bit_xor_step a b, differ-le_one (a % 2) (b % 2) (omega arith) (omega arith))

-- the shift of an exclusive or
pub shr-bit_xor : (a b k : ℕ) → shr (bit_xor a b) k ≡ bit_xor (shr a k) (shr b k)
shr-bit_xor a b zero = refl
shr-bit_xor a b (suc k) = rw (shr-bit_xor a b k) (bit_xor_half (shr a k) (shr b k))

bit_xor_self_fuel : (n a : ℕ) → a ≤ n → bit_xor a a ≡ 0
bit_xor_self_fuel n zero h = zero-bit_xor 0
bit_xor_self_fuel zero (suc a) h = absurd (omega arith)
bit_xor_self_fuel (suc n) (suc a) h = omega (
  arith,
  bit_xor_step (suc a) (suc a),
  bit_xor_self_fuel n (suc a / 2) (omega arith),
  differ_self (suc a % 2),
)

pub bit_xor_self : (a : ℕ) → bit_xor a a ≡ 0
bit_xor_self a = bit_xor_self_fuel a a (omega arith)

eq_of_bit_xor_fuel : (n a b : ℕ) → a + b ≤ n → bit_xor a b ≡ 0 → a ≡ b
eq_of_bit_xor_fuel zero a b p h = omega arith
eq_of_bit_xor_fuel (suc n) zero b p h = sym h ∙ zero-bit_xor b
eq_of_bit_xor_fuel (suc n) (suc a) b p h = omega (
  arith,
  bit_xor_step (suc a) b,
  eq_of_bit_xor_fuel n (suc a / 2) (b / 2) (omega arith) (omega (arith, bit_xor_step (suc a) b)),
  differ-eq_zero (suc a % 2) (b % 2) (omega (arith, bit_xor_step (suc a) b)),
)

pub eq_of_bit_xor : (a b : ℕ) → bit_xor a b ≡ 0 → a ≡ b
eq_of_bit_xor a b h = eq_of_bit_xor_fuel (a + b) a b (omega arith) h

bit_and_half : (a b : ℕ) → bit_and a b / 2 ≡ bit_and (a / 2) (b / 2)
bit_and_half a b = omega (arith, bit_and_step a b)

-- the shift of an and
pub shr-bit_and : (a b k : ℕ) → shr (bit_and a b) k ≡ bit_and (shr a k) (shr b k)
shr-bit_and a b zero = refl
shr-bit_and a b (suc k) = rw (shr-bit_and a b k) (bit_and_half (shr a k) (shr b k))

bit_and_self_fuel : (n a : ℕ) → a ≤ n → bit_and a a ≡ a
bit_and_self_fuel n zero h = zero-bit_and 0
bit_and_self_fuel zero (suc a) h = absurd (omega arith)
bit_and_self_fuel (suc n) (suc a) h =
    omega (arith, bit_and_step (suc a) (suc a), bit_and_self_fuel n (suc a / 2) (omega arith))

pub bit_and_self : (a : ℕ) → bit_and a a ≡ a
bit_and_self a = bit_and_self_fuel a a (omega arith)

bit_and-le_fuel : (n a b : ℕ) → a ≤ n → bit_and a b ≤ a
bit_and-le_fuel n zero b h = omega (arith, zero-bit_and b)
bit_and-le_fuel zero (suc a) b h = absurd (omega arith)
bit_and-le_fuel (suc n) (suc a) b h =
    omega (arith, bit_and_step (suc a) b, bit_and-le_fuel n (suc a / 2) (b / 2) (omega arith))

pub bit_and-le : (a b : ℕ) → bit_and a b ≤ a
bit_and-le a b = bit_and-le_fuel a a b (omega arith)

-- A mask whose low digits are zeros.
pub bit_and_high : (a m k : ℕ) → bit_and a (m * pow2 k) ≡ bit_and (shr a k) m * pow2 k
bit_and_high a m zero = let e : m * 1 ≡ m = omega arith in rw e (omega arith)
bit_and_high a m (suc k) =
    let e : m * (pow2 k * 2) / 2 ≡ m * pow2 k = omega arith in
    let z : m * (pow2 k * 2) % 2 ≡ 0 = omega arith in
    rw (bit_and_step a (m * (pow2 k * 2)), e, z, ← shr_halve a k)
      (omega (arith, bit_and_high (a / 2) m k))

-- A mask of ones keeps a word of that many digits.
pub bit_and_ones : (x i : ℕ) → x < pow2 i → bit_and x (pow2 i - 1) ≡ x
bit_and_ones x zero h = let e : x ≡ 0 = omega arith in rw e (zero-bit_and 0)
bit_and_ones x (suc i) h =
    let e : (pow2 i * 2 - 1) / 2 ≡ pow2 i - 1 = omega (arith, pow2_pos i) in
    let z : (pow2 i * 2 - 1) % 2 ≡ 1 = omega (arith, pow2_pos i) in
    rw (bit_and_step x (pow2 i * 2 - 1), e, z) (omega (arith, bit_and_ones (x / 2) i (omega arith)))

pub pow2-add : (i j : ℕ) → pow2 (i + j) ≡ pow2 i * pow2 j
pow2-add i zero = rw add-zero (omega arith)
pow2-add i (suc j) = rw add-suc (omega (arith, pow2-add i j))

pub pow2_mono : (i j : ℕ) → i ≤ j → pow2 i ≤ pow2 j
pow2_mono zero j h = pow2_pos j
pow2_mono (suc i) zero h = absurd (omega arith)
pow2_mono (suc i) (suc j) h = omega (arith, pow2_mono i j (omega arith))

pub pow2_lt : (i j : ℕ) → i < j → pow2 i < pow2 j
pow2_lt i j h = omega (arith, pow2_mono (suc i) j h, pow2_pos i)

shr-lt-pow2 : (a i j : ℕ) → a < pow2 (i + j) → shr a j < pow2 i
shr-lt-pow2 a i j h =
    lt-pow2_of_shr (shr a j) i
      (shr-add a j i ∙ shr_all a (j + i) (let e : i + j ≡ j + i = omega arith in rw e at h))

mul_pred : (p q : ℕ) → 0 < p → p * q - q ≡ (p - 1) * q
mul_pred zero q h = absurd (omega arith)
mul_pred (suc p) q h =
    let a : suc p ≡ p + 1 = omega arith in
    let b : suc p - 1 ≡ p = omega arith in rw (b, a) (omega arith)

-- The mask `Tmasks[i]` of a word of `n = i + j` digits: it clears the `j` lowest.
pub bit_and_prefix :
    (n j a : ℕ) → j ≤ n → a < pow2 n → bit_and a (pow2 n - pow2 j) ≡ shr a j * pow2 j
bit_and_prefix n j a h k =
    let e : n ≡ (n - j) + j = omega arith in
    let m : pow2 n - pow2 j ≡ (pow2 (n - j) - 1) * pow2 j =
      ap (λ (t : ℕ). pow2 t - pow2 j) e
      ∙ rw (pow2-add (n - j) j) (mul_pred (pow2 (n - j)) (pow2 j) (pow2_pos (n - j))) in
    rw (m, bit_and_high a (pow2 (n - j) - 1) j)
      (ap (λ (t : ℕ). t * pow2 j)
        (bit_and_ones (shr a j) (n - j) (shr-lt-pow2 a (n - j) j (rw e at k))))

bit_or_zero_fuel : (n a : ℕ) → a ≤ n → bit_or a 0 ≡ a
bit_or_zero_fuel n zero h = zero-bit_or 0
bit_or_zero_fuel zero (suc a) h = absurd (omega arith)
bit_or_zero_fuel (suc n) (suc a) h =
    omega (arith, bit_or_step (suc a) 0, bit_or_zero_fuel n (suc a / 2) (omega arith))

pub bit_or_zero : (a : ℕ) → bit_or a 0 ≡ a
bit_or_zero a = bit_or_zero_fuel a a (omega arith)

bit_and_zero_fuel : (n a : ℕ) → a ≤ n → bit_and a 0 ≡ 0
bit_and_zero_fuel n zero h = zero-bit_and 0
bit_and_zero_fuel zero (suc a) h = absurd (omega arith)
bit_and_zero_fuel (suc n) (suc a) h =
    omega (arith, bit_and_step (suc a) 0, bit_and_zero_fuel n (suc a / 2) (omega arith))

pub bit_and_zero : (a : ℕ) → bit_and a 0 ≡ 0
bit_and_zero a = bit_and_zero_fuel a a (omega arith)

pub bit_or_one_half : (a : ℕ) → bit_or a 1 / 2 ≡ a / 2
bit_or_one_half a = bit_or_half a 1 ∙ bit_or_zero (a / 2)

pub bit_and_one : (a : ℕ) → bit_and a 1 ≡ a % 2
bit_and_one a = omega (arith, bit_and_step a 1, bit_and_zero (a / 2))

pub bit_or_one_odd : (a : ℕ) → bit_or a 1 % 2 ≡ 1
bit_or_one_odd a = omega (arith, bit_or_step a 1)
