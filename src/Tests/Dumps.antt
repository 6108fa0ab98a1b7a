-- ===== src/Tests/Dumps.antt =====
-- Three traces moved in batches of two, and a database that refuses them.
use delfos.Prelude
use delfos.Prelude.{
  ℕ, ◌+◌, ◌≡◌, refl, ap, Bool, true, false, List, [], ◌∷◌, ◌++◌, some, Text, codes, arith, drop,
  text_eq, if◌then◌else◌,
}
use delfos.Trace.{default}
use delfos.Dump.{
  Outside, State, row, append_rows, erase_from_last, insert_into, do_stuff, drained, refused,
}
use delfos.Dump.Laws.{Lawful, joined, rows_of, queries_of, erase_from_last-append_rows}
use delfos.Dump.Moves.{concat, do_stuff_drains, do_stuff_loses}

-- The nodes are their indexes in order; the database counts the queries.
abbrev remove : Text → List Text → List Text
remove item [] = []
remove item (x ∷ xs) = xs

abbrev nodes : Bool → Outside ℕ
nodes accepts = record {
  Store = List Text;
  Database = ℕ;
  auto_size = λ store. Prelude.length store;
  main_indexes = λ store. store;
  content = λ item trace store. record trace { guid = item };
  delete_node = remove;
  perform_query = λ query d. (accepts, d + 1);
  fresh_trace = default 0 0 [];
  to_string = λ n. codes "0";
  as_db_string = λ n. codes "now";
  to_str = λ j. codes "{}";
}

nodes-Lawful : (b : Bool) → Lawful (nodes b)
nodes-Lawful b = record { size = λ store. refl; deletes = λ item rest store e. ap (remove item) e }

abbrev queued : List Text
queued = codes "a" ∷ codes "b" ∷ codes "c" ∷ []

abbrev accepting : State (nodes true)
accepting = record { store = queued; database = 0; queries = [] }

abbrev refusing : State (nodes false)
refusing = record { store = queued; database = 0; queries = [] }

erase_from_last-append_rows_example :
    erase_from_last b','
      (append_rows (nodes true) (codes "a" ∷ codes "b" ∷ []) insert_into queued).0
    ≡ some (
        insert_into
        ++ joined
            (row (nodes true) (record (default 0 0 []) { guid = codes "a" }))
            (rows_of (nodes true) (codes "b" ∷ []) (codes "b" ∷ codes "c" ∷ [])))
erase_from_last-append_rows_example =
    erase_from_last-append_rows (nodes true) (codes "a") (codes "b" ∷ []) insert_into queued

do_stuff_drains_example :
    let (r, s) = do_stuff (nodes true) 3 2 accepting in
    (r ≡ drained)
    × (s.store ≡ [])
    × (batches : List (List Text)) × (concat batches ≡ queued)
    × (s.queries ≡ queries_of (nodes true) batches queued [])
do_stuff_drains_example =
    do_stuff_drains (nodes true) (nodes-Lawful true) 3 1 accepting (λ query d. refl) (omega arith)
      (omega arith)

do_stuff_loses_example :
    let (r, s) = do_stuff (nodes false) 3 2 refusing in (r ≡ refused) × (s.store ≡ codes "c" ∷ [])
do_stuff_loses_example =
    do_stuff_loses (nodes false) (nodes-Lawful false) 2 1 refusing (λ query. refl) (omega arith)
      (omega arith)
