-- ===== src/Format/Chars.antt =====
-- The classes of the characters of a format string: `format_char_map` of e_acsl_format.h. A `char`
-- from 128 on is negative, and out of the map.
use frama_c_snapshot.Prelude.{
  ℕ, ◌<◌, ◌≡◌, refl, Bool, true, false, ◌&&◌, ◌||◌, Option, none, some, List, [], ◌∷◌, ◌==◌, ltb,
  arith, get_elem?, set, replicate, ap, inl, inr, Bool-cases, if◌then◌else◌, all_below,
  all_below-at, both,
}
use frama_c_snapshot.Prelude.Run.{Run, ok, fault, ◌>>=◌, of_option}

abbrev pub length_chars : List ℕ
length_chars = 104 ∷ 108 ∷ 106 ∷ 122 ∷ 116 ∷ 76 ∷ []

abbrev pub flag_chars : List ℕ
flag_chars = 45 ∷ 43 ∷ 32 ∷ 35 ∷ 48 ∷ 39 ∷ []

abbrev pub specifier_chars : List ℕ
specifier_chars =
    100 ∷ 105 ∷ 111 ∷ 117 ∷ 120 ∷ 88 ∷ 102 ∷ 70 ∷ 101 ∷ 69 ∷ 103 ∷ 71 ∷ 97 ∷ 65 ∷ 99 ∷ 115 ∷ 112
    ∷ 110 ∷ []

abbrev pub period_chars : List ℕ
period_chars = 46 ∷ []

abbrev pub specifier_id : ℕ
specifier_id = 115

abbrev pub length_id : ℕ
length_id = 108

abbrev pub flag_id : ℕ
flag_id = 102

abbrev pub period_id : ℕ
period_id = 114

-- one of the loops of `set_format_char_map`
abbrev pub set_class : List ℕ → ℕ → List ℕ → List ℕ
set_class [] id map = map
set_class (c ∷ cs) id map = set_class cs id (set map c id)

-- `format_char_map` after `set_format_char_map`
unfoldable pub format_char_map : List ℕ
format_char_map =
    set
      (set_class period_chars period_id (
        set_class flag_chars flag_id (
          set_class length_chars length_id
            (set_class specifier_chars specifier_id (replicate 256 0)))))
      0 105

-- `format_char_map[(int)_c] == id`
unfoldable pub is_class : ℕ → ℕ → Run Bool
unfolding format_char_map
is_class id c =
    if ltb c 128
    then (of_option (get_elem? format_char_map c) >>= λ class. ok (class == id))
    else fault

-- membership in one of the strings of characters
abbrev pub contains : List ℕ → ℕ → Bool
contains [] c = false
contains (d ∷ ds) c = d == c || contains ds c

-- whether the map and a string of characters agree on a character
abbrev agrees : ℕ → List ℕ → Option ℕ → ℕ → Bool
agrees id chars none c = false
agrees id chars (some class) c =
    if contains chars c then class == id else (if class == id then false else true)

abbrev all_agree : Option ℕ → ℕ → Bool
all_agree class c =
    agrees specifier_id specifier_chars class c
    && (agrees length_id length_chars class c
        && (agrees flag_id flag_chars class c && agrees period_id period_chars class c))

unfoldable agrees_at : ℕ → Bool
unfolding format_char_map
agrees_at c = all_agree (get_elem? format_char_map c) c

agree_128 : all_below agrees_at 128 ≡ true
unfolding agrees_at format_char_map
agree_128 = refl

agrees-class :
    (id : ℕ) (chars : List ℕ) (class : Option ℕ) (c : ℕ)
    → agrees id chars class c ≡ true
    → (of_option class >>= λ k. ok (k == id)) ≡ ok (contains chars c)
agrees-class id chars none c h = ground arith
agrees-class id chars (some class) c h = elim (Bool-cases (contains chars c)) [
  | inl e ↦ rw e (ap ok (let h' = rw e at h in h'))
  | inr e ↦ rw e (ap ok (let h' = rw e at h in ground arith))
]

-- For a character below 128 the four tests of the code hold exactly for the characters of their
-- four strings.
pub is_class-contains :
    (c : ℕ)
    → c < 128
    → (is_class specifier_id c ≡ ok (contains specifier_chars c))
      × (is_class length_id c ≡ ok (contains length_chars c))
      × (is_class flag_id c ≡ ok (contains flag_chars c))
      × (is_class period_id c ≡ ok (contains period_chars c))
unfolding is_class agrees_at
is_class-contains c p =
    let z : ltb c 128 ≡ true = ground arith in
    let h = all_below-at agrees_at 128 c agree_128 p in
    let class = get_elem? format_char_map c in
    let (h1, h2) = both _ _ h in
    let (h3, h4) = both _ _ h2 in
    let (h5, h6) = both _ _ h4 in
    (
      rw (is_class, z) (agrees-class specifier_id specifier_chars class c h1),
      rw (is_class, z) (agrees-class length_id length_chars class c h3),
      rw (is_class, z) (agrees-class flag_id flag_chars class c h5),
      rw (is_class, z) (agrees-class period_id period_chars class c h6),
    )
