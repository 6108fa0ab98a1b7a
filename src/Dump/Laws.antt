-- ===== src/Dump/Laws.antt =====
-- The rows and the batches of `do_stuff`.
use mathlib.Core.List.{append_assoc, append-nil}
use delfos.Prelude.{
  ℕ, zero, suc, ◌-◌, ◌≤◌, ◌≡◌, refl, sym, ap, ◌∙◌, Bool, true, false, List, [], ◌∷◌, ◌++◌, some,
  Text, codes, arith, length, take, replicate, ltb, if◌then◌else◌,
}
use delfos.Dump.{Outside, insert_into, erase_from_last, resize_list, row, append_rows, next_batch}

-- Rows, each with a comma behind it, and rows with a comma between two.
abbrev commas : List Text → Text
commas [] = []
commas (r ∷ rs) = (r ++ codes ",") ++ commas rs

abbrev pub joined : Text → List Text → Text
joined r [] = r
joined r (r' ∷ rs) = r ++ (codes "," ++ joined r' rs)

commas-joined : (r : Text) (rs : List Text) → commas (r ∷ rs) ≡ joined r rs ++ codes ","
commas-joined r [] = append-nil _
commas-joined r (r' ∷ rs) =
    ap (λ t. (r ++ codes ",") ++ t) (commas-joined r' rs)
    ∙ append_assoc r (codes ",") _
    ∙ sym (append_assoc r (codes "," ++ joined r' rs) (codes ","))

erase_last : (c : ℕ) (xs : Text) → erase_from_last c (xs ++ (c ∷ [])) ≡ some xs
unfolding erase_from_last
erase_last c [] = ground arith
erase_last c (x ∷ xs) = rw (erase_last c xs)

take_all : (n : ℕ) (xs : List Text) → length xs ≤ n → take n xs ≡ xs
take_all zero [] h = refl
take_all zero (x ∷ xs) h = absurd (omega (arith, h))
take_all (suc n) [] h = refl
take_all (suc n) (x ∷ xs) h = ap (λ ys. x ∷ ys) (take_all n xs (omega arith))

module _ {J : Type 0} (O : Outside J) where
  -- The rows of the listed traces, as they are read.
  abbrev pub rows_of : List Text → O.Store → List Text
  rows_of [] store = []
  rows_of (item ∷ items) store =
      row O (O.content item O.fresh_trace store) ∷ rows_of items (O.delete_node item store)

  abbrev pub delete_all : List Text → O.Store → O.Store
  delete_all [] store = store
  delete_all (item ∷ items) store = delete_all items (O.delete_node item store)

  -- The text of a batch's query: a row for each index, between single commas.
  abbrev pub query_of : List Text → O.Store → Text
  query_of [] store = insert_into
  query_of (item ∷ items) store =
      insert_into
      ++ joined (row O (O.content item O.fresh_trace store))
          (rows_of items (O.delete_node item store))

  -- The queries of batches, the oldest first, on top of earlier ones.
  abbrev pub queries_of : List (List Text) → O.Store → List Text → List Text
  queries_of [] store queries = queries
  queries_of (b ∷ bs) store queries =
      queries_of bs (delete_all b store) (query_of b store ∷ queries)

  pub append_rows-delete_all :
      (items : List Text) (query : Text) (store : O.Store)
      → (append_rows O items query store).1 ≡ delete_all items store
  unfolding append_rows
  append_rows-delete_all [] query store = refl
  append_rows-delete_all (item ∷ items) query store =
      append_rows-delete_all items _ (O.delete_node item store)

  append_rows-commas :
      (items : List Text) (query : Text) (store : O.Store)
      → (append_rows O items query store).0 ≡ query ++ commas (rows_of items store)
  unfolding append_rows
  append_rows-commas [] query store = sym (append-nil query)
  append_rows-commas (item ∷ items) query store =
      append_rows-commas items _ (O.delete_node item store) ∙ append_assoc query _ _

  -- The query that is performed for a batch has its rows between single commas, with nothing
  -- behind the last.
  pub erase_from_last-append_rows :
      (item : Text) (items : List Text) (query : Text) (store : O.Store)
      → erase_from_last b',' (append_rows O (item ∷ items) query store).0
        ≡ some (
            query
            ++ joined
                (row O (O.content item O.fresh_trace store))
                (rows_of items (O.delete_node item store)))
  erase_from_last-append_rows item items query store =
      ap (erase_from_last b',') (
        append_rows-commas (item ∷ items) query store
        ∙ ap (λ t. query ++ t) (commas-joined _ (rows_of items (O.delete_node item store)))
        ∙ sym (append_assoc query _ (codes ",")))
      ∙ erase_last b',' _

  -- What `do_stuff` relies on: the size is the number of indexes, and deleting the first index
  -- leaves the others in their order.
  pub record Lawful : Type 0 where
    pub size : (store : O.Store) → O.auto_size store ≡ length (O.main_indexes store)
    pub deletes :
        (item : Text) (rest : List Text) (store : O.Store)
        → O.main_indexes store ≡ item ∷ rest
        → O.main_indexes (O.delete_node item store) ≡ rest

  module _ (lawful : Lawful) where
    pub append_rows-indexes :
        (items rest : List Text) (query : Text) (store : O.Store)
        → O.main_indexes store ≡ items ++ rest
        → O.main_indexes (append_rows O items query store).1 ≡ rest
    unfolding append_rows
    append_rows-indexes [] rest query store e = e
    append_rows-indexes (item ∷ items) rest query store e =
        append_rows-indexes items rest _ _ (lawful.deletes item (items ++ rest) store e)

    -- The two branches of `next_batch`, by its test.
    cut :
        (b : Bool) (max n : ℕ) (xs : List Text)
        → b ≡ ltb max n
        → n ≡ length xs
        → (if b then resize_list max xs else xs) ≡ take max xs
    unfolding resize_list
    cut true max n xs test e =
        let none_missing : max - length xs ≡ 0 = ground arith in
        ap (λ k. take max xs ++ replicate k []) none_missing ∙ append-nil (take max xs)
    cut false max n xs test e = sym (take_all max xs (ground arith))

    pub next_batch-take :
        (max n : ℕ) (store : O.Store)
        → n ≡ length (O.main_indexes store)
        → next_batch O max n store ≡ take max (O.main_indexes store)
    unfolding next_batch
    next_batch-take max n store e = cut (ltb max n) max n (O.main_indexes store) refl e
