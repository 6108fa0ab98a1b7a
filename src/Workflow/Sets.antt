-- ===== src/Workflow/Sets.antt =====
-- The sets of texts that the getters of the bucket give, as lists in order.
use delfos.Prelude.{
  ℕ, ◌≡◌, refl, ◌∙◌, Bool, true, false, ◌&&◌, ◌||◌, List, [], ◌∷◌, Text, text_eq, is_empty, ltb,
  ◌==◌, arith,
}
use delfos.World.{World}
use delfos.Monad.{val, pure}
use delfos.Workflow.State.{System}
use delfos.Workflow.Buckets.{text_lt, set_insert, insert_all, get_vateam_guids, get_vacenter_guids}

-- The members of a list, in any order.
abbrev pub has : Text → List Text → Bool
has z [] = false
has z (y ∷ ys) = text_eq z y || has z ys

-- Nothing stands before `y` in the order.
abbrev pub starts_above : Text → List Text → Bool
starts_above y [] = true
starts_above y (z ∷ zs) = text_lt y z

-- Strictly increasing, so that no text stands twice.
abbrev pub is_ordered : List Text → Bool
is_ordered [] = true
is_ordered (y ∷ ys) = starts_above y ys && is_ordered ys

-- The set of the members of a list.
pub record IsSetOf (members set : List Text) : Type 0 where
  pub ordered : is_ordered set ≡ true
  pub same : (z : Text) → has z set ≡ has z members

neither_before :
    (x y : ℕ) (b c : Bool)
    → (ltb x y || (x == y && b)) ≡ false
    → (ltb y x || (y == x && c)) ≡ false
    → (x ≡ y) × (b ≡ false) × (c ≡ false)
neither_before x y b c h k = ground arith

-- Texts of which neither stands before the other are equal.
lt_total : (x y : Text) → text_lt x y ≡ false → text_lt y x ≡ false → x ≡ y
unfolding text_lt
lt_total [] [] h k = refl
lt_total [] (y ∷ ys) h k = cc
lt_total (x ∷ xs) [] h k = cc
lt_total (x ∷ xs) (y ∷ ys) h k =
    let (e, f, g) = neither_before x y (text_lt xs ys) (text_lt ys xs) h k in
    rw (e, lt_total xs ys f g) refl

has-set_insert : (z x : Text) (ys : List Text) → has z (set_insert x ys) ≡ (text_eq z x || has z ys)
unfolding set_insert
has-set_insert z x [] = refl
has-set_insert z x (y ∷ ys) = ground (arith, has-set_insert z x ys, lt_total x y)

starts_above-set_insert :
    (y x : Text) (zs : List Text)
    → text_lt y x ≡ true
    → starts_above y zs ≡ true
    → starts_above y (set_insert x zs) ≡ true
unfolding set_insert
starts_above-set_insert y x [] h k = h
starts_above-set_insert y x (z ∷ zs) h k = ground (arith, h, k)

is_ordered-set_insert :
    (x : Text) (ys : List Text) → is_ordered ys ≡ true → is_ordered (set_insert x ys) ≡ true
unfolding set_insert
is_ordered-set_insert x [] h = refl
is_ordered-set_insert x (y ∷ ys) h =
    ground (arith, h, is_ordered-set_insert x ys, starts_above-set_insert y x ys)

has-insert_all :
    (z : Text) (xs set : List Text) → has z (insert_all xs set) ≡ (has z xs || has z set)
unfolding insert_all
has-insert_all z [] set = refl
has-insert_all z (x ∷ xs) set =
    ground (arith, has-insert_all z xs (set_insert x set), has-set_insert z x set)

is_ordered-insert_all :
    (xs set : List Text) → is_ordered set ≡ true → is_ordered (insert_all xs set) ≡ true
unfolding insert_all
is_ordered-insert_all [] set h = h
is_ordered-insert_all (x ∷ xs) set h =
    is_ordered-insert_all xs (set_insert x set) (is_ordered-set_insert x set h)

or_false : (b : Bool) → (b || false) ≡ b
or_false true = refl
or_false false = refl

module _ (W : World) {X : Type 0} where
  -- The getters of the teams and of the centers implement sets: if the branch group has relations,
  -- the teams are those of the relations and no others; the one center is the bucket's. Each comes
  -- once, in the order of texts, and the state is kept.
  pub guids-IsSetOf :
      (s : System W X)
      → is_empty W.bucket.relations ≡ false
      → ((set : List Text) × (get_vateam_guids W s ≡ (val set, s)) × IsSetOf W.bucket.relations set)
        × ((set : List Text) × (get_vacenter_guids W s ≡ (val set, s))
            × IsSetOf (W.bucket.vacenter ∷ []) set)
  unfolding get_vateam_guids get_vacenter_guids pure set_insert
  guids-IsSetOf s h = (
    (
      insert_all W.bucket.relations [],
      rw h refl,
      record {
        ordered = is_ordered-insert_all W.bucket.relations [] refl;
        same = λ z. has-insert_all z W.bucket.relations [] ∙ or_false _;
      },
    ),
    (W.bucket.vacenter ∷ [], refl, record { ordered = refl; same = λ z. refl }),
  )
