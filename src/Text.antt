-- ===== src/Text.antt =====
-- `std::string::find` and `substr`, and the unsigned arithmetic on what they return.
use delfos.Prelude.{
  ℕ, ◌+◌, ◌-◌, ◌%◌, ◌^◌, Bool, true, false, ◌&&◌, [], ◌∷◌, Option, none, some, Text, ltb, ◌==◌,
  length, take, drop, if◌then◌else◌,
}

abbrev pub size_mod : ℕ
size_mod = 2 ^ 64

-- `std::string::npos`
abbrev pub npos : ℕ
npos = size_mod - 1

unfoldable pub starts_with : Text → Text → Bool
starts_with [] s = true
starts_with (p ∷ ps) [] = false
starts_with (p ∷ ps) (c ∷ s) = p == c && starts_with ps s

-- The first position at which the pattern stands.
unfoldable pub find? : Text → Text → Option ℕ
find? p [] = elim (starts_with p []) [ true ↦ some 0 | false ↦ none ]
find? p (c ∷ s) =
    let rest = find? p s in
    elim (starts_with p (c ∷ s)) [
      | true ↦ some 0
      | false ↦ elim rest [ none ↦ none | some i ↦ some (i + 1) ]
    ]

unfoldable pub find : Text → Text → ℕ
unfolding find? starts_with
find p s = elim (find? p s) [ none ↦ npos | some i ↦ i ]

-- `none` is the exception `std::out_of_range`.
unfoldable pub substr : ℕ → ℕ → Text → Option Text
substr pos n s = if ltb (length s) pos then none else some (take n (drop pos s))

-- `size_t` sums and differences wrap.
abbrev pub add_size : ℕ → ℕ → ℕ
add_size a b = (a + b) % size_mod

abbrev pub sub_size : ℕ → ℕ → ℕ
sub_size a b = (a + size_mod - b) % size_mod
