-- ===== src/Bittree/Tables.antt =====
-- The tables of plugins/e-acsl/share/e-acsl/bittree_model/e_acsl_bittree.h, for each word width
-- that the header has: the prefix masks, and the transitions of the dichotomic search.
use frama_c_snapshot.Prelude.{ℕ, List, [], ◌∷◌}

-- `__WORDSIZE`
pub data WordBits : Type 0 where
  w16 w32 w64 : WordBits

-- `WORDBITS`
abbrev pub bits : WordBits → ℕ
bits w16 = 16
bits w32 = 32
bits w64 = 64

-- An entry of `Teq` or `Tneq`: `go i` is the positive `i`, and `stop i` is `-i`, at which the
-- search ends (0 is `stop 0`).
pub data Next : Type 0 where
  go stop : ℕ → Next

abbrev pub tmasks : WordBits → List ℕ
tmasks w16 =
    0x0 ∷ 0x8000 ∷ 0xc000 ∷ 0xe000 ∷ 0xf000 ∷ 0xf800 ∷ 0xfc00 ∷ 0xfe00 ∷ 0xff00 ∷ 0xff80 ∷ 0xffc0
    ∷ 0xffe0 ∷ 0xfff0 ∷ 0xfff8 ∷ 0xfffc ∷ 0xfffe ∷ 0xffff ∷ []
tmasks w32 =
    0x0 ∷ 0x80000000 ∷ 0xc0000000 ∷ 0xe0000000 ∷ 0xf0000000 ∷ 0xf8000000 ∷ 0xfc000000 ∷ 0xfe000000
    ∷ 0xff000000 ∷ 0xff800000 ∷ 0xffc00000 ∷ 0xffe00000 ∷ 0xfff00000 ∷ 0xfff80000 ∷ 0xfffc0000
    ∷ 0xfffe0000 ∷ 0xffff0000 ∷ 0xffff8000 ∷ 0xffffc000 ∷ 0xffffe000 ∷ 0xfffff000 ∷ 0xfffff800
    ∷ 0xfffffc00 ∷ 0xfffffe00 ∷ 0xffffff00 ∷ 0xffffff80 ∷ 0xffffffc0 ∷ 0xffffffe0 ∷ 0xfffffff0
    ∷ 0xfffffff8 ∷ 0xfffffffc ∷ 0xfffffffe ∷ 0xffffffff ∷ []
tmasks w64 =
    0x0 ∷ 0x8000000000000000 ∷ 0xc000000000000000 ∷ 0xe000000000000000 ∷ 0xf000000000000000
    ∷ 0xf800000000000000 ∷ 0xfc00000000000000 ∷ 0xfe00000000000000 ∷ 0xff00000000000000
    ∷ 0xff80000000000000 ∷ 0xffc0000000000000 ∷ 0xffe0000000000000 ∷ 0xfff0000000000000
    ∷ 0xfff8000000000000 ∷ 0xfffc000000000000 ∷ 0xfffe000000000000 ∷ 0xffff000000000000
    ∷ 0xffff800000000000 ∷ 0xffffc00000000000 ∷ 0xffffe00000000000 ∷ 0xfffff00000000000
    ∷ 0xfffff80000000000 ∷ 0xfffffc0000000000 ∷ 0xfffffe0000000000 ∷ 0xffffff0000000000
    ∷ 0xffffff8000000000 ∷ 0xffffffc000000000 ∷ 0xffffffe000000000 ∷ 0xfffffff000000000
    ∷ 0xfffffff800000000 ∷ 0xfffffffc00000000 ∷ 0xfffffffe00000000 ∷ 0xffffffff00000000
    ∷ 0xffffffff80000000 ∷ 0xffffffffc0000000 ∷ 0xffffffffe0000000 ∷ 0xfffffffff0000000
    ∷ 0xfffffffff8000000 ∷ 0xfffffffffc000000 ∷ 0xfffffffffe000000 ∷ 0xffffffffff000000
    ∷ 0xffffffffff800000 ∷ 0xffffffffffc00000 ∷ 0xffffffffffe00000 ∷ 0xfffffffffff00000
    ∷ 0xfffffffffff80000 ∷ 0xfffffffffffc0000 ∷ 0xfffffffffffe0000 ∷ 0xffffffffffff0000
    ∷ 0xffffffffffff8000 ∷ 0xffffffffffffc000 ∷ 0xffffffffffffe000 ∷ 0xfffffffffffff000
    ∷ 0xfffffffffffff800 ∷ 0xfffffffffffffc00 ∷ 0xfffffffffffffe00 ∷ 0xffffffffffffff00
    ∷ 0xffffffffffffff80 ∷ 0xffffffffffffffc0 ∷ 0xffffffffffffffe0 ∷ 0xfffffffffffffff0
    ∷ 0xfffffffffffffff8 ∷ 0xfffffffffffffffc ∷ 0xfffffffffffffffe ∷ 0xffffffffffffffff ∷ []

abbrev pub teq : WordBits → List Next
teq w16 =
    (stop 0)
    ∷ (stop 1)
    ∷ (go 3)
    ∷ (stop 3)
    ∷ (go 6)
    ∷ (stop 5)
    ∷ (go 7)
    ∷ (stop 7)
    ∷ (go 12)
    ∷ (stop 9)
    ∷ (go 11)
    ∷ (stop 11)
    ∷ (go 14)
    ∷ (stop 13)
    ∷ (go 15)
    ∷ (go 16)
    ∷ (stop 16)
    ∷ []
teq w32 =
    (stop 0)
    ∷ (stop 1)
    ∷ (go 3)
    ∷ (stop 3)
    ∷ (go 6)
    ∷ (stop 5)
    ∷ (go 7)
    ∷ (stop 7)
    ∷ (go 12)
    ∷ (stop 9)
    ∷ (go 11)
    ∷ (stop 11)
    ∷ (go 14)
    ∷ (stop 13)
    ∷ (go 15)
    ∷ (stop 15)
    ∷ (go 24)
    ∷ (stop 17)
    ∷ (go 19)
    ∷ (stop 19)
    ∷ (go 22)
    ∷ (stop 21)
    ∷ (go 23)
    ∷ (stop 23)
    ∷ (go 28)
    ∷ (stop 25)
    ∷ (go 27)
    ∷ (stop 27)
    ∷ (go 30)
    ∷ (stop 29)
    ∷ (go 31)
    ∷ (go 32)
    ∷ (stop 32)
    ∷ []
teq w64 =
    (stop 0)
    ∷ (stop 1)
    ∷ (go 3)
    ∷ (stop 3)
    ∷ (go 6)
    ∷ (stop 5)
    ∷ (go 7)
    ∷ (stop 7)
    ∷ (go 12)
    ∷ (stop 9)
    ∷ (go 11)
    ∷ (stop 11)
    ∷ (go 14)
    ∷ (stop 13)
    ∷ (go 15)
    ∷ (stop 15)
    ∷ (go 24)
    ∷ (stop 17)
    ∷ (go 19)
    ∷ (stop 19)
    ∷ (go 22)
    ∷ (stop 21)
    ∷ (go 23)
    ∷ (stop 23)
    ∷ (go 28)
    ∷ (stop 25)
    ∷ (go 27)
    ∷ (stop 27)
    ∷ (go 30)
    ∷ (stop 29)
    ∷ (go 31)
    ∷ (stop 31)
    ∷ (go 48)
    ∷ (stop 33)
    ∷ (go 35)
    ∷ (stop 35)
    ∷ (go 38)
    ∷ (stop 37)
    ∷ (go 39)
    ∷ (stop 39)
    ∷ (go 44)
    ∷ (stop 41)
    ∷ (go 43)
    ∷ (stop 43)
    ∷ (go 46)
    ∷ (stop 45)
    ∷ (go 47)
    ∷ (stop 47)
    ∷ (go 56)
    ∷ (stop 49)
    ∷ (go 51)
    ∷ (stop 51)
    ∷ (go 54)
    ∷ (stop 53)
    ∷ (go 55)
    ∷ (stop 55)
    ∷ (go 60)
    ∷ (stop 57)
    ∷ (go 59)
    ∷ (stop 59)
    ∷ (go 62)
    ∷ (stop 61)
    ∷ (go 63)
    ∷ (go 64)
    ∷ (stop 64)
    ∷ []

abbrev pub tneq : WordBits → List Next
tneq w16 =
    (stop 0)
    ∷ (stop 0)
    ∷ (go 1)
    ∷ (stop 2)
    ∷ (go 2)
    ∷ (stop 4)
    ∷ (go 5)
    ∷ (stop 6)
    ∷ (go 4)
    ∷ (stop 8)
    ∷ (go 9)
    ∷ (stop 10)
    ∷ (go 10)
    ∷ (stop 12)
    ∷ (go 13)
    ∷ (stop 14)
    ∷ (stop 15)
    ∷ []
tneq w32 =
    (stop 0)
    ∷ (stop 0)
    ∷ (go 1)
    ∷ (stop 2)
    ∷ (go 2)
    ∷ (stop 4)
    ∷ (go 5)
    ∷ (stop 6)
    ∷ (go 4)
    ∷ (stop 8)
    ∷ (go 9)
    ∷ (stop 10)
    ∷ (go 10)
    ∷ (stop 12)
    ∷ (go 13)
    ∷ (stop 14)
    ∷ (go 8)
    ∷ (stop 16)
    ∷ (go 17)
    ∷ (stop 18)
    ∷ (go 18)
    ∷ (stop 20)
    ∷ (go 21)
    ∷ (stop 22)
    ∷ (go 20)
    ∷ (stop 24)
    ∷ (go 25)
    ∷ (stop 26)
    ∷ (go 26)
    ∷ (stop 28)
    ∷ (go 29)
    ∷ (stop 30)
    ∷ (stop 31)
    ∷ []
tneq w64 =
    (stop 0)
    ∷ (stop 0)
    ∷ (go 1)
    ∷ (stop 2)
    ∷ (go 2)
    ∷ (stop 4)
    ∷ (go 5)
    ∷ (stop 6)
    ∷ (go 4)
    ∷ (stop 8)
    ∷ (go 9)
    ∷ (stop 10)
    ∷ (go 10)
    ∷ (stop 12)
    ∷ (go 13)
    ∷ (stop 14)
    ∷ (go 8)
    ∷ (stop 16)
    ∷ (go 17)
    ∷ (stop 18)
    ∷ (go 18)
    ∷ (stop 20)
    ∷ (go 21)
    ∷ (stop 22)
    ∷ (go 20)
    ∷ (stop 24)
    ∷ (go 25)
    ∷ (stop 26)
    ∷ (go 26)
    ∷ (stop 28)
    ∷ (go 29)
    ∷ (stop 30)
    ∷ (go 16)
    ∷ (stop 32)
    ∷ (go 33)
    ∷ (stop 34)
    ∷ (go 34)
    ∷ (stop 36)
    ∷ (go 37)
    ∷ (stop 38)
    ∷ (go 36)
    ∷ (stop 40)
    ∷ (go 41)
    ∷ (stop 42)
    ∷ (go 42)
    ∷ (stop 44)
    ∷ (go 45)
    ∷ (stop 46)
    ∷ (go 40)
    ∷ (stop 48)
    ∷ (go 49)
    ∷ (stop 50)
    ∷ (go 50)
    ∷ (stop 52)
    ∷ (go 53)
    ∷ (stop 54)
    ∷ (go 52)
    ∷ (stop 56)
    ∷ (go 57)
    ∷ (stop 58)
    ∷ (go 58)
    ∷ (stop 60)
    ∷ (go 61)
    ∷ (stop 62)
    ∷ (stop 63)
    ∷ []
