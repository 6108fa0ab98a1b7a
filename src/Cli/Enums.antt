-- ===== src/Cli/Enums.antt =====
-- The names of an enumeration of cli-parser.h and its numbers.
use delfos.Prelude.{
  ℕ, zero, suc, ◌≡◌, ◌≢◌, ap, ◌∙◌, Bool, true, false, List, [], ◌∷◌, Option, none, some, Text,
  text_eq_sound, text_eq_refl, Option-cases, inl, inr, get_elem?, arith,
}
use delfos.Cli.{position, get_enum, get_string}

position-get_elem? :
    (x : Text) (names : List Text) (i : ℕ) → position x names ≡ some i → get_elem? names i ≡ some x
unfolding position
position-get_elem? x [] i h = cc
position-get_elem? x (n ∷ ns) zero h =
    ground (arith, text_eq_sound x n, Option-cases (position x ns))
position-get_elem? x (n ∷ ns) (suc i) h =
    ground (arith, position-get_elem? x ns i, Option-cases (position x ns))

-- No name stands twice.
unfoldable pub distinct : List Text → Bool
unfolding position
distinct [] = true
distinct (n ∷ ns) = elim (position n ns) [ none ↦ distinct ns | some i ↦ false ]

get_elem?-position :
    (x : Text) (names : List Text) (i : ℕ)
    → distinct names ≡ true
    → get_elem? names i ≡ some x
    → position x names ≡ some i
unfolding position distinct
get_elem?-position x [] i d h = cc
get_elem?-position x (n ∷ ns) zero d h = ground (arith, text_eq_refl n)
get_elem?-position x (n ∷ ns) (suc i) d h =
    ground (arith, text_eq_sound x n, get_elem?-position x ns i, Option-cases (position n ns))

enum_of :
    (names : List Text) (text : Text) (o : Option ℕ)
    → position text names ≡ o
    → get_enum names text ≡ elim o [ none ↦ 0 | some i ↦ suc i ]
unfolding get_enum
enum_of names text o e = ap (λ o. elim o [ none ↦ 0 | some i ↦ suc i ]) e

-- A text that is found among the names is given back by its number.
pub get_string-get_enum :
    (names : List Text) (text : Text)
    → get_enum names text ≢ 0
    → get_string names (get_enum names text) ≡ some text
unfolding get_string
get_string-get_enum names text h = elim (Option-cases (position text names)) [
  | inl e ↦ absurd (h (enum_of names text none e))
  | inr (i, e) ↦
      ap (get_string names) (enum_of names text (some i) e) ∙ position-get_elem? text names i e
]

-- If no name stands twice, each number but that of `undefined` is given back by its name.
pub get_enum-get_string :
    (names : List Text) (i : ℕ) (text : Text)
    → distinct names ≡ true
    → get_string names (suc i) ≡ some text
    → get_enum names text ≡ suc i
unfolding get_string
get_enum-get_string names i text d h =
    enum_of names text (some i) (get_elem?-position text names i d h)
