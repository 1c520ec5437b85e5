-- ===== src/Segment/Words.antt =====
-- Memory by bytes, the lowest byte of a word first: the loads and stores of words that the shadow
-- memory of e_acsl_segment_tracking.h is made of.
use frama_c_snapshot.Prelude.{
  ℕ, zero, suc, ◌+◌, ◌-◌, ◌*◌, ◌/◌, ◌%◌, ◌<◌, ◌≤◌, ◌≡◌, ◌⊎◌, refl, ◌∙◌, Bool, true, false, ◌&&◌,
  ◌==◌, leb, ltb, if◌then◌else◌, bit_and, bit_or, arith, ==_iff, both,
}
use frama_c_snapshot.Prelude.Bits.{pow2}

-- the byte at each address
abbrev pub Bytes : Type 0
Bytes = ℕ → ℕ

abbrev pub update : Bytes → ℕ → ℕ → Bytes
update m a v x = if x == a then v else m x

-- the byte `i` of a value
unfoldable pub byte_of : ℕ → ℕ → ℕ
byte_of zero v = v % 256
byte_of (suc i) v = byte_of i (v / 256)

-- a store of a word of `k` bytes
unfoldable pub store : ℕ → ℕ → ℕ → Bytes → Bytes
store zero a v m = m
store (suc k) a v m = update (store k (a + 1) (v / 256) m) a (v % 256)

unfoldable pub load : ℕ → ℕ → Bytes → ℕ
load zero a m = 0
load (suc k) a m = m a + 256 * load k (a + 1) m

-- `*p |= v`
unfoldable pub or_word : ℕ → ℕ → ℕ → Bytes → Bytes
or_word zero a v m = m
or_word (suc k) a v m = update (or_word k (a + 1) (v / 256) m) a (bit_or (m a) (v % 256))

-- `(*p & v) == v`
unfoldable pub has_bits : ℕ → ℕ → ℕ → Bytes → Bool
has_bits zero a v m = true
has_bits (suc k) a v m = bit_and (m a) (v % 256) == v % 256 && has_bits k (a + 1) (v / 256) m

-- `memset(p, v, n)`
unfoldable pub fill : ℕ → ℕ → ℕ → Bytes → Bytes
fill a v n m x = if leb a x && ltb x (a + n) then v else m x

-- `memcpy` of the `n` bytes from `s` to `d`, for regions that do not overlap
unfoldable pub copy : ℕ → ℕ → ℕ → Bytes → Bytes
copy n s d m x = if leb d x && ltb x (d + n) then m (s + (x - d)) else m x

-- `x` is none of the `n` addresses from `a`
abbrev pub Outside : ℕ → ℕ → ℕ → Type 0
Outside a n x = (x < a) ⊎ (a + n ≤ x)

pub store-Outside : (k a v x : ℕ) (m : Bytes) → Outside a k x → store k a v m x ≡ m x
unfolding store
store-Outside zero a v x m o = refl
store-Outside (suc k) a v x m o = ground (arith, store-Outside k (a + 1) (v / 256) x m)

pub store-byte_of : (k i a v : ℕ) (m : Bytes) → i < k → store k a v m (a + i) ≡ byte_of i v
unfolding store byte_of
store-byte_of zero i a v m p = absurd (omega arith)
store-byte_of (suc k) zero a v m p = ground arith
store-byte_of (suc k) (suc i) a v m p =
    let e : a + suc i ≡ (a + 1) + i = omega arith in
    let n : (a + 1 + i == a) ≡ false = ground arith in
    rw (e, store, n) (store-byte_of k i (a + 1) (v / 256) m (omega arith))

-- a load reads only its own bytes
pub load_same :
    (k a : ℕ) (m m' : Bytes) → ((i : ℕ) → i < k → m (a + i) ≡ m' (a + i)) → load k a m ≡ load k a m'
unfolding load
load_same zero a m m' h = refl
load_same (suc k) a m m' h =
    let e : a + 0 ≡ a = omega arith in
    let first = rw e at (h 0 (omega arith)) in
    let rest =
      load_same k (a + 1) m m'
        (λ i p. let q : a + 1 + i ≡ a + suc i = omega arith in rw q (h (suc i) (omega arith))) in
    rw (first, rest) refl

-- the number that the `k` lowest bytes of a value make
abbrev pub low_bytes : ℕ → ℕ → ℕ
low_bytes zero v = 0
low_bytes (suc k) v = v % 256 + 256 * low_bytes k (v / 256)

pub load-store : (k a v : ℕ) (m : Bytes) → load k a (store k a v m) ≡ low_bytes k v
unfolding load store
load-store zero a v m = refl
load-store (suc k) a v m =
    let here : store (suc k) a v m a ≡ v % 256 = ground arith in
    let rest : load k (a + 1) (store (suc k) a v m) ≡ low_bytes k (v / 256) =
      load_same k (a + 1) (store (suc k) a v m) (store k (a + 1) (v / 256) m) (λ i p. ground arith)
      ∙ load-store k (a + 1) (v / 256) m in
    rw (here, rest) refl

pub load-store_32 : (a v : ℕ) (m : Bytes) → v < 0x1_0000_0000 → load 4 a (store 4 a v m) ≡ v
load-store_32 a v m p = load-store 4 a v m ∙ omega arith

pub load-store_64 : (a v : ℕ) (m : Bytes) → v < pow2 64 → load 8 a (store 8 a v m) ≡ v
load-store_64 a v m p = load-store 8 a v m ∙ omega arith

pub or_word-Outside : (k a v x : ℕ) (m : Bytes) → Outside a k x → or_word k a v m x ≡ m x
unfolding or_word
or_word-Outside zero a v x m o = refl
or_word-Outside (suc k) a v x m o = ground (arith, or_word-Outside k (a + 1) (v / 256) x m)

pub or_word-byte_of :
    (k i a v : ℕ) (m : Bytes) → i < k → or_word k a v m (a + i) ≡ bit_or (m (a + i)) (byte_of i v)
unfolding or_word byte_of
or_word-byte_of zero i a v m p = absurd (omega arith)
or_word-byte_of (suc k) zero a v m p =
    let e : a + 0 ≡ a = omega arith in
    let y : (a == a) ≡ true = ground arith in rw (e, or_word, y) refl
or_word-byte_of (suc k) (suc i) a v m p =
    let e : a + suc i ≡ (a + 1) + i = omega arith in
    let n : (a + 1 + i == a) ≡ false = ground arith in
    rw (e, or_word, n) (or_word-byte_of k i (a + 1) (v / 256) m (omega arith))

pub has_bits_all :
    (k a v : ℕ) (m : Bytes)
    → ((i : ℕ) → i < k → bit_and (m (a + i)) (byte_of i v) ≡ byte_of i v)
    → has_bits k a v m ≡ true
unfolding has_bits byte_of
has_bits_all zero a v m h = refl
has_bits_all (suc k) a v m h =
    let e : a + 0 ≡ a = omega arith in
    let first = rw e at (h 0 (omega arith)) in
    let rest =
      has_bits_all k (a + 1) (v / 256) m
        (λ i p. let q : a + 1 + i ≡ a + suc i = omega arith in rw q (h (suc i) (omega arith))) in
    let test : (bit_and (m a) (v % 256) == v % 256) ≡ true = (==_iff _ _).1 first in
    rw (has_bits, test, rest) refl

pub fill_inside : (a v n x : ℕ) (m : Bytes) → (leb a x && ltb x (a + n)) ≡ true → fill a v n m x ≡ v
unfolding fill
fill_inside a v n x m h = rw h refl

pub fill_outside :
    (a v n x : ℕ) (m : Bytes) → (leb a x && ltb x (a + n)) ≡ false → fill a v n m x ≡ m x
unfolding fill
fill_outside a v n x m h = rw h refl

pub has_bits_at :
    (k i a v : ℕ) (m : Bytes)
    → has_bits k a v m ≡ true
    → i < k
    → bit_and (m (a + i)) (byte_of i v) ≡ byte_of i v
unfolding has_bits byte_of
has_bits_at zero i a v m h p = absurd (omega arith)
has_bits_at (suc k) zero a v m h p =
    let e : a + 0 ≡ a = omega arith in rw e ((==_iff _ _).0 ((both _ _ h).0))
has_bits_at (suc k) (suc i) a v m h p =
    let e : a + 1 + i ≡ a + suc i = omega arith in
    rw e at (has_bits_at k i (a + 1) (v / 256) m ((both _ _ h).1) (omega arith))
