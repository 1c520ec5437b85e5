-- ===== src/Segment/Static/Alloca.antt =====
-- What `shadow_alloca` of e_acsl_segment_tracking.h writes, byte by byte and word by word.
use frama_c_snapshot.Prelude.{
  ℕ, zero, suc, ◌+◌, ◌*◌, ◌%◌, ◌<◌, ◌≤◌, ◌≡◌, refl, ◌∙◌, arith, ◌==◌, true, false,
}
use frama_c_snapshot.Segment.Words.{
  Bytes, Outside, byte_of, store, load, store-Outside, store-byte_of, load_same, load-store_32,
}
use frama_c_snapshot.Segment.Static

pub alloca_segments-primary :
    (n ptr size i x : ℕ) (s : Static.Shadows)
    → Outside (ptr + i) (n * 8) x
    → (Static.alloca_segments n ptr size i s).primary x ≡ s.primary x
unfolding Static.alloca_segments
alloca_segments-primary zero ptr size i x s o = refl
alloca_segments-primary (suc n) ptr size i x s o =
    alloca_segments-primary n ptr size (i + 8) x _ (omega arith)
    ∙ store-Outside 8 (ptr + i) Static.long_block_mask x s.primary (omega arith)

pub alloca_segments-secondary :
    (n ptr size i x : ℕ) (s : Static.Shadows)
    → Outside (ptr + i) (n * 8) x
    → (Static.alloca_segments n ptr size i s).secondary x ≡ s.secondary x
unfolding Static.alloca_segments
alloca_segments-secondary zero ptr size i x s o = refl
alloca_segments-secondary (suc n) ptr size i x s o =
    alloca_segments-secondary n ptr size (i + 8) x _ (omega arith)
    ∙ store-Outside 4 (ptr + i + 4) i x (store 4 (ptr + i) size s.secondary) (omega arith)
    ∙ store-Outside 4 (ptr + i) size x s.secondary (omega arith)

-- the bytes of the mask of a segment
mask-byte_of : (r : ℕ) → r < 8 → byte_of r Static.long_block_mask ≡ (48 + r) * 4
unfolding byte_of
mask-byte_of zero p = refl
mask-byte_of (suc zero) p = refl
mask-byte_of (suc (suc zero)) p = refl
mask-byte_of (suc (suc (suc zero))) p = refl
mask-byte_of (suc (suc (suc (suc zero)))) p = refl
mask-byte_of (suc (suc (suc (suc (suc zero))))) p = refl
mask-byte_of (suc (suc (suc (suc (suc (suc zero)))))) p = refl
mask-byte_of (suc (suc (suc (suc (suc (suc (suc zero))))))) p = refl
mask-byte_of (suc (suc (suc (suc (suc (suc (suc (suc r)))))))) p = absurd (omega arith)

pub alloca_segments_codes :
    (n ptr size i m r : ℕ) (s : Static.Shadows)
    → m < n
    → r < 8
    → (Static.alloca_segments n ptr size i s).primary (ptr + i + 8 * m + r) ≡ (48 + r) * 4
unfolding Static.alloca_segments
alloca_segments_codes zero ptr size i m r s p q = absurd (omega arith)
alloca_segments_codes (suc n) ptr size i zero r s p q =
    let e : ptr + i + 0 + r ≡ ptr + i + r = omega arith in
    rw e (
      alloca_segments-primary n ptr size (i + 8) (ptr + i + r) _ (omega arith)
      ∙ store-byte_of 8 r (ptr + i) Static.long_block_mask s.primary q
      ∙ mask-byte_of r q)
alloca_segments_codes (suc n) ptr size i (suc m) r s p q =
    let e : ptr + i + 8 * suc m + r ≡ ptr + (i + 8) + 8 * m + r = omega arith in
    rw e (alloca_segments_codes n ptr size (i + 8) m r _ (omega arith) q)

pub alloca_segments_size :
    (n ptr size i m : ℕ) (s : Static.Shadows)
    → m < n
    → size < 0x1_0000_0000
    → load 4 (ptr + i + 8 * m) (Static.alloca_segments n ptr size i s).secondary ≡ size
unfolding Static.alloca_segments
alloca_segments_size zero ptr size i m s p b = absurd (omega arith)
alloca_segments_size (suc n) ptr size i zero s p b =
    let e : ptr + i + 8 * 0 ≡ ptr + i = omega arith in
    rw e (
      load_same 4 (ptr + i) _ (store 4 (ptr + i) size s.secondary) (λ j q.
        alloca_segments-secondary n ptr size (i + 8) (ptr + i + j) _ (omega arith)
        ∙ store-Outside 4 (ptr + i + 4) i (ptr + i + j) (store 4 (ptr + i) size s.secondary)
            (omega arith))
      ∙ load-store_32 (ptr + i) size s.secondary b)
alloca_segments_size (suc n) ptr size i (suc m) s p b =
    let e : ptr + i + 8 * suc m ≡ ptr + (i + 8) + 8 * m = omega arith in
    rw e (alloca_segments_size n ptr size (i + 8) m _ (omega arith) b)

pub alloca_segments_offset :
    (n ptr size i m : ℕ) (s : Static.Shadows)
    → m < n
    → i + 8 * n < 0x1_0000_0000
    → load 4 (ptr + i + 8 * m + 4) (Static.alloca_segments n ptr size i s).secondary ≡ i + 8 * m
unfolding Static.alloca_segments
alloca_segments_offset zero ptr size i m s p b = absurd (omega arith)
alloca_segments_offset (suc n) ptr size i zero s p b =
    let e : ptr + i + 8 * 0 + 4 ≡ ptr + i + 4 = omega arith in
    let z : i + 8 * 0 ≡ i = omega arith in
    rw (e, z)
      (load_same 4 (ptr + i + 4) _ (store 4 (ptr + i + 4) i (store 4 (ptr + i) size s.secondary))
          (λ j q. alloca_segments-secondary n ptr size (i + 8) (ptr + i + 4 + j) _ (omega arith))
        ∙ load-store_32 (ptr + i + 4) i (store 4 (ptr + i) size s.secondary) (omega arith))
alloca_segments_offset (suc n) ptr size i (suc m) s p b =
    let e : ptr + i + 8 * suc m ≡ ptr + (i + 8) + 8 * m = omega arith in
    let z : i + 8 * suc m ≡ i + 8 + 8 * m = omega arith in
    rw (e, z) (alloca_segments_offset n ptr size (i + 8) m _ (omega arith) (omega arith))

pub alloca_remainder-Outside :
    (n ptr i x : ℕ) (m : Bytes) → Outside (ptr + i) n x → Static.alloca_remainder n ptr i m x ≡ m x
unfolding Static.alloca_remainder
alloca_remainder-Outside zero ptr i x m o = refl
alloca_remainder-Outside (suc n) ptr i x m o =
    let away : (x == ptr + i) ≡ false = ground arith in
    alloca_remainder-Outside n ptr (i + 1) x _ (omega arith) ∙ rw away refl

pub alloca_remainder_codes :
    (n ptr i k : ℕ) (m : Bytes)
    → k < n
    → Static.alloca_remainder n ptr i m (ptr + i + k) ≡ (56 + (i + k) % 8) * 4
unfolding Static.alloca_remainder
alloca_remainder_codes zero ptr i k m p = absurd (omega arith)
alloca_remainder_codes (suc n) ptr i zero m p =
    let e : ptr + i + 0 ≡ ptr + i = omega arith in
    let z : i + 0 ≡ i = omega arith in
    let here : (ptr + i == ptr + i) ≡ true = ground arith in
    rw (e, z)
      (alloca_remainder-Outside n ptr (i + 1) (ptr + i) _ (omega arith) ∙ rw here (omega arith))
alloca_remainder_codes (suc n) ptr i (suc k) m p =
    let e : ptr + i + suc k ≡ ptr + (i + 1) + k = omega arith in
    let z : i + suc k ≡ i + 1 + k = omega arith in
    rw (e, z) (alloca_remainder_codes n ptr (i + 1) k _ (omega arith))

pub alloca_short-Outside :
    (n ptr base i x : ℕ) (m : Bytes)
    → Outside (ptr + i) n x
    → Static.alloca_short n ptr base i m x ≡ m x
unfolding Static.alloca_short
alloca_short-Outside zero ptr base i x m o = refl
alloca_short-Outside (suc n) ptr base i x m o =
    let away : (x == ptr + i) ≡ false = ground arith in
    alloca_short-Outside n ptr base (i + 1) x _ (omega arith) ∙ rw away refl

pub alloca_short_codes :
    (n ptr base i k : ℕ) (m : Bytes)
    → k < n
    → base + i + n ≤ 64
    → Static.alloca_short n ptr base i m (ptr + i + k) ≡ (base + i + k) * 4
unfolding Static.alloca_short
alloca_short_codes zero ptr base i k m p b = absurd (omega arith)
alloca_short_codes (suc n) ptr base i zero m p b =
    let e : ptr + i + 0 ≡ ptr + i = omega arith in
    let here : (ptr + i == ptr + i) ≡ true = ground arith in
    rw e (alloca_short-Outside n ptr base (i + 1) (ptr + i) _ (omega arith) ∙ rw here (omega arith))
alloca_short_codes (suc n) ptr base i (suc k) m p b =
    let e : ptr + i + suc k ≡ ptr + (i + 1) + k = omega arith in
    let z : base + i + suc k ≡ base + (i + 1) + k = omega arith in
    rw (e, z) (alloca_short_codes n ptr base (i + 1) k _ (omega arith) (omega arith))
