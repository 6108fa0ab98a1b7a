-- ===== src/Dump/Moves.antt =====
-- Whole runs of `do_stuff`.
use delfos.Prelude.{
  ℕ, zero, suc, ◌-◌, ◌≤◌, ◌<◌, ◌≡◌, refl, sym, ap, ◌∙◌, Bool, true, false, List, [], ◌∷◌, ◌++◌,
  Option, none, some, Text, arith, length, take, drop, take-append-drop, length-drop, length-take,
  subst,
}
use delfos.Trace.{uint_mod}
use delfos.Dump.{
  Outside, erase_from_last, insert_into, State, append_rows, next_batch, dump, dump_round,
  queue_size, go_on, empty_queue, do_stuff, Dumped, drained, refused,
}
use delfos.Dump.Laws.{
  Lawful, delete_all, queries_of, query_of, append_rows-delete_all, erase_from_last-append_rows,
  append_rows-indexes, next_batch-take,
}

empty_if : (xs : List Text) → 0 ≡ length xs → xs ≡ []
empty_if [] e = refl
empty_if (x ∷ xs) e = absurd (omega (arith, e))

-- The indexes of batches, in order.
abbrev pub concat : List (List Text) → List Text
concat [] = []
concat (b ∷ bs) = b ++ concat bs

some_injective : {x y : Text} → some x ≡ some y → x ≡ y
some_injective e = cc

module _ {J : Type 0} (O : Outside J) (lawful : Lawful O) where
  -- A round over a queue that is not empty: `ok` is whether the database took the query.
  record Rounded (max : ℕ) (s : State O) (r : Option Bool) (s' : State O) : Type 0 where
    query : Text
    answered : r ≡ some (O.perform_query query s.database).0
    left : O.main_indexes s'.store ≡ drop max (O.main_indexes s.store)
    asked : s'.queries ≡ query_of O (take max (O.main_indexes s.store)) s.store ∷ s.queries
    deleted : s'.store ≡ delete_all O (take max (O.main_indexes s.store)) s.store

  -- The query is there and the batch has left the nodes.
  dump-Rounded :
      (max : ℕ) (items : List Text) (found : Option Text) (store : O.Store) (s : State O)
      → found ≡ some (query_of O items s.store)
      → items ≡ take max (O.main_indexes s.store)
      → O.main_indexes store ≡ drop max (O.main_indexes s.store)
      → store ≡ delete_all O items s.store
      → Rounded max s (dump O found store s).0 (dump O found store s).1
  unfolding dump
  dump-Rounded max items none store s f e h d = cc
  dump-Rounded max items (some found) store s f e h d = record {
    query = found;
    answered = refl;
    left = h;
    asked =
        ap (λ q. q ∷ s.queries) (some_injective f) ∙ ap (λ b. query_of O b s.store ∷ s.queries) e;
    deleted = d ∙ ap (λ b. delete_all O b s.store) e;
  }

  batch-Rounded :
      (max : ℕ) (items : List Text) (s : State O)
      → 0 < length items
      → items ≡ take max (O.main_indexes s.store)
      → let (query, store) = append_rows O items insert_into s.store in
        let (r, s') = dump O (erase_from_last b',' query) store s in Rounded max s r s'
  batch-Rounded max [] s some_left e = absurd (omega (arith, some_left))
  batch-Rounded max (item ∷ items) s some_left e =
      dump-Rounded max (item ∷ items) _ _ s
        (erase_from_last-append_rows O item items insert_into s.store) e
        (append_rows-indexes O lawful (item ∷ items) (drop max (O.main_indexes s.store)) insert_into
          s.store
          (sym (take-append-drop max (O.main_indexes s.store))
            ∙ ap (λ t. t ++ drop max (O.main_indexes s.store)) (sym e)))
        (append_rows-delete_all O (item ∷ items) insert_into s.store)

  dump_round-Rounded :
      (m n : ℕ) (s : State O)
      → suc n ≡ length (O.main_indexes s.store)
      → let (r, s') = dump_round O (suc m) (suc n) s in Rounded (suc m) s r s'
  unfolding dump_round
  dump_round-Rounded m n s e =
      let cut = next_batch-take O lawful (suc m) (suc n) s.store e in
      let nonempty : 0 < length (next_batch O (suc m) (suc n) s.store) =
        subst (λ t. 0 < length t) (sym cut)
          (omega (arith, length-take (suc m) (O.main_indexes s.store))) in
      batch-Rounded (suc m) _ s nonempty cut

  -- Where a run that emptied the queue leaves the system.
  record Moved (s : State O) (r : Dumped) (s' : State O) : Type 0 where
    ended : r ≡ drained
    emptied : O.main_indexes s'.store ≡ []
    batches : List (List Text)
    whole : concat batches ≡ O.main_indexes s.store
    performed : s'.queries ≡ queries_of O batches s.store s.queries

  queue_size-length :
      (s : State O)
      → length (O.main_indexes s.store) < uint_mod
      → queue_size O s ≡ length (O.main_indexes s.store)
  unfolding queue_size
  queue_size-length s small = omega (arith, lawful.size s.store)

  length_left :
      (max : ℕ) (s : State O) (r : Option Bool) (s' : State O)
      → Rounded max s r s'
      → length (O.main_indexes s'.store) ≡ length (O.main_indexes s.store) - max
  length_left max s r s' round = ap length round.left ∙ length-drop max (O.main_indexes s.store)

  nothing_left : (s : State O) → 0 ≡ length (O.main_indexes s.store) → Moved s drained s
  nothing_left s e = record {
    ended = refl;
    emptied = empty_if (O.main_indexes s.store) e;
    batches = [];
    whole = sym (empty_if (O.main_indexes s.store) e);
    performed = refl;
  }

  went_on :
      (r : Option Bool) (b : Bool) (more : Dumped × State O) (s : State O)
      → r ≡ some b
      → go_on O r more s ≡ go_on O (some b) more s
  went_on r b more s e = ap (λ x. go_on O x more s) e

  empty_queue-Moved :
      ((query : Text) (d : O.Database) → (O.perform_query query d).0 ≡ true)
      → (fuel m n : ℕ) (s : State O) → n ≡ length (O.main_indexes s.store)
      → length (O.main_indexes s.store) < uint_mod
      → n ≤ fuel
      → Moved s (empty_queue O fuel (suc m) n s).0 (empty_queue O fuel (suc m) n s).1
  unfolding empty_queue go_on
  empty_queue-Moved accepts zero m zero s e small enough = nothing_left s e
  empty_queue-Moved accepts zero m (suc n) s e small enough = absurd (omega (arith, enough))
  empty_queue-Moved accepts (suc fuel) m zero s e small enough = nothing_left s e
  empty_queue-Moved accepts (suc fuel) m (suc n) s e small enough =
      let round = dump_round-Rounded m n s e in
      let s' = (dump_round O (suc m) (suc n) s).1 in
      let left = length_left (suc m) s _ s' round in
      let size = queue_size-length s' (omega arith) in
      let rest =
        empty_queue-Moved accepts fuel m (queue_size O s') s' size (omega arith) (omega arith) in
      let accepted = round.answered ∙ ap some (accepts round.query s.database) in
      subst (λ x. Moved s x.0 x.1) (sym (went_on _ true _ s' accepted))
        (record {
          ended = rest.ended;
          emptied = rest.emptied;
          batches = take (suc m) (O.main_indexes s.store) ∷ rest.batches;
          whole =
              ap (λ t. take (suc m) (O.main_indexes s.store) ++ t) (rest.whole ∙ round.left)
              ∙ take-append-drop (suc m) (O.main_indexes s.store);
          performed =
              rest.performed
              ∙ ap (λ q. queries_of O rest.batches s'.store q) round.asked
              ∙ ap
                  (λ st.
                    queries_of O rest.batches st
                      (query_of O (take (suc m) (O.main_indexes s.store)) s.store ∷ s.queries))
                  round.deleted;
        })

  -- Over lawful nodes of fewer than 2^32 traces, if the database takes every query and the largest
  -- batch is at least 1, `do_stuff` ends, its fuel being at least the number of traces: the nodes
  -- are empty then, and their indexes fall into consecutive batches, such that the queries performed
  -- are, in order, one for each batch, with a row for each of its traces, as the nodes give it when
  -- those before it are deleted.
  pub do_stuff_drains :
      (fuel m : ℕ) (s : State O)
      → ((query : Text) (d : O.Database) → (O.perform_query query d).0 ≡ true)
      → length (O.main_indexes s.store) < uint_mod
      → length (O.main_indexes s.store) ≤ fuel
      → let (r, s') = do_stuff O fuel (suc m) s in
        (r ≡ drained)
        × (O.main_indexes s'.store ≡ [])
        × (batches : List (List Text)) × (concat batches ≡ O.main_indexes s.store)
        × (s'.queries ≡ queries_of O batches s.store s.queries)
  unfolding do_stuff
  do_stuff_drains fuel m s accepts small enough =
      let size = queue_size-length s small in
      let all = empty_queue-Moved accepts fuel m (queue_size O s) s size small (omega arith) in
      (all.ended, all.emptied, all.batches, all.whole, all.performed)

  refused_at :
      (fuel m n : ℕ) (s : State O)
      → ((query : Text) → (O.perform_query query s.database).0 ≡ false)
      → n ≡ length (O.main_indexes s.store)
      → 0 < n
      → let (r, s') = empty_queue O (suc fuel) (suc m) n s in
        (r ≡ refused) × (O.main_indexes s'.store ≡ drop (suc m) (O.main_indexes s.store))
  unfolding empty_queue go_on
  refused_at fuel m zero s refuses e some_left = absurd (omega (arith, some_left))
  refused_at fuel m (suc n) s refuses e some_left =
      let round = dump_round-Rounded m n s e in
      let no = round.answered ∙ ap some (refuses round.query) in
      subst
        (λ x. (x.0 ≡ refused) × (O.main_indexes x.1.store ≡ drop (suc m) (O.main_indexes s.store)))
        (sym (went_on _ false _ _ no)) (refl, round.left)

  -- If the largest batch is at least 1 and the database refuses the first query over lawful nodes of
  -- 1 to 2^32 - 1 traces, `do_stuff` gives up, and the traces of that query have left the nodes all
  -- the same: they are lost.
  pub do_stuff_loses :
      (fuel m : ℕ) (s : State O)
      → ((query : Text) → (O.perform_query query s.database).0 ≡ false)
      → 0 < length (O.main_indexes s.store)
      → length (O.main_indexes s.store) < uint_mod
      → let (r, s') = do_stuff O (suc fuel) (suc m) s in
        (r ≡ refused) × (O.main_indexes s'.store ≡ drop (suc m) (O.main_indexes s.store))
  unfolding do_stuff
  do_stuff_loses fuel m s refuses some_left small =
      let size = queue_size-length s small in
      refused_at fuel m (queue_size O s) s refuses size (omega (arith, some_left, size))
