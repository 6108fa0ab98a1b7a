-- ===== src/Workflow/Buckets.antt =====
-- What a workflow takes from the `WizardBucket`.
use delfos.Prelude.{
  ℕ, Bool, true, false, not, ◌&&◌, ◌||◌, List, [], ◌∷◌, Text, ltb, ◌==◌, is_empty, length,
  if◌then◌else◌,
}
use delfos.World.{World}
use delfos.Monad.{M, pure, leave, threw}
use delfos.Workflow.State.{System}

-- `operator<` of `std::string`
unfoldable pub text_lt : Text → Text → Bool
text_lt [] [] = false
text_lt [] (y ∷ ys) = true
text_lt (x ∷ xs) [] = false
text_lt (x ∷ xs) (y ∷ ys) = ltb x y || (x == y && text_lt xs ys)

-- `std::set<std::string>::insert`, the set as the list of its members in order
unfoldable pub set_insert : Text → List Text → List Text
set_insert x [] = x ∷ []
set_insert x (y ∷ ys) =
    if text_lt x y then x ∷ y ∷ ys else if text_lt y x then y ∷ set_insert x ys else y ∷ ys

unfoldable pub insert_all : List Text → List Text → List Text
insert_all [] set = set
insert_all (x ∷ xs) set = insert_all xs (set_insert x set)

abbrev nth : List Text → ℕ → Text
nth [] i = []
nth (x ∷ xs) ℕ.zero = x
nth (x ∷ xs) (ℕ.suc i) = nth xs i

module _ (W : World) {X : Type 0} where
  -- The bounds check and the access that `get_agent_guid` and its two twins share.
  unfoldable pub at_position : List Text → ℕ → M (System W X) Text
  at_position xs i = if not (is_empty xs) && ltb i (length xs) then pure (nth xs i) else leave threw

  unfoldable pub get_agent_guid : ℕ → M (System W X) Text
  unfolding at_position
  get_agent_guid agent_position = at_position W.bucket.agents agent_position

  unfoldable pub get_vateam_guids : M (System W X) (List Text)
  get_vateam_guids =
      let relations = W.bucket.relations in
      if is_empty relations then leave threw else pure (insert_all relations [])

  unfoldable pub get_vacenter_guids : M (System W X) (List Text)
  get_vacenter_guids = pure (set_insert W.bucket.vacenter [])

  unfoldable pub get_branch_guid : M (System W X) Text
  get_branch_guid = pure W.bucket.branch

  unfoldable pub get_branchgroup_delfosnar_guid : ℕ → M (System W X) Text
  unfolding at_position
  get_branchgroup_delfosnar_guid branchgroup_position =
      at_position W.bucket.branchgroups_delfosnar branchgroup_position

  unfoldable pub get_branch_delfosnar_guid : ℕ → M (System W X) Text
  unfolding at_position
  get_branch_delfosnar_guid branch_position =
      at_position W.bucket.branches_delfosnar branch_position
