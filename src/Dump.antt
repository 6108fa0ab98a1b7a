-- ===== src/Dump.antt =====
-- RequestTraceThreadController.cpp: `do_stuff`, which moves the traces into the database. The nodes
-- are the core library's container, the database is behind `DAIHelper`: both are parameters. The
-- model lets no workflow insert a trace while `do_stuff` runs; `main` makes such a call when it has
-- joined the workflows.
pub mod Laws
pub mod Moves
use delfos.Prelude.{
  ℕ, zero, suc, ◌-◌, ◌%◌, ◌≡◌, Bool, true, false, List, [], ◌∷◌, ◌++◌, Option, none, some, Text,
  codes, text_eq, ◌==◌, ltb, length, take, replicate, if◌then◌else◌,
}
use delfos.Trace.{RequestTrace, uint_mod}

-- `Nodes`: `auto_size`, `auto_get_main_indexes_list_copy`, `auto_get_content_copy_by_main_index`
-- (the trace that it is given is kept if the index is unknown) and `auto_delete_node_by_main_index`;
-- `DAIHelper::perform_query`, with whether the error stack is empty then; and the texts of numbers,
-- times and documents.
pub record Outside (J : Type 0) : Type 1 where
  pub Store : Type 0
  pub Database : Type 0
  pub auto_size : Store → ℕ
  pub main_indexes : Store → List Text
  pub content : Text → RequestTrace J → Store → RequestTrace J
  pub delete_node : Text → Store → Store
  pub perform_query : Text → Database → Bool × Database
  pub fresh_trace : RequestTrace J
  pub to_string : ℕ → Text
  pub as_db_string : ℕ → Text
  pub to_str : J → Text

-- `std::list::resize`
unfoldable pub resize_list : ℕ → List Text → List Text
resize_list n xs = take n xs ++ replicate (n - length xs) []

-- `query.erase(query.find_last_of(...))`; `none` is the exception of a text without that byte.
unfoldable pub erase_from_last : ℕ → Text → Option Text
erase_from_last c [] = none
erase_from_last c (x ∷ xs) =
    let rest = erase_from_last c xs in
    elim rest [
      | some kept ↦ some (x ∷ kept)
      | none ↦ elim (x == c) [ true ↦ some [] | false ↦ none ]
    ]

abbrev pub insert_into : Text
insert_into =
    codes "INSERT INTO RequestTrace (Guid, WorkflowName, Success, Command, WorkflowId, "
    ++ codes "RequestTimestamp, Request, Response, Duration )VALUES "

-- `std::to_string` of a `bool`
abbrev pub flag_number : Bool → ℕ
flag_number true = 1
flag_number false = 0

-- How `do_stuff` ends: the queue is empty, the database refused a query, or `erase` threw.
-- `unfinished` is the model's, for too little fuel.
pub data Dumped : Type 0 where
  drained refused thrown unfinished : Dumped

module _ {J : Type 0} (O : Outside J) where
  -- `queries` lists the queries that were performed, the newest first.
  pub record State : Type 0 where
    pub store : O.Store
    pub database : O.Database
    pub queries : List Text

  -- A trace's row, up to the comma that follows it.
  unfoldable pub row : RequestTrace J → Text
  row trace =
      codes "('"
      ++ (trace.guid
          ++ (codes "', '"
              ++ (trace.workflow_name
                  ++ (codes "',  "
                      ++ (O.to_string (flag_number trace.success)
                          ++ (codes ", '"
                              ++ (trace.command
                                  ++ (codes "',  "
                                      ++ (O.to_string trace.thread_id
                                          ++ (codes ", '"
                                              ++ (O.as_db_string trace.request_timestamp
                                                  ++ (codes "', '', '"
                                                      ++ (O.to_str trace.response
                                                          ++ (codes "',  "
                                                            ++ (O.to_string trace.duration
                                                            ++ codes " )")))))))))))))))

  -- `for (auto item : index_list)`: each row is appended and its node deleted.
  unfoldable pub append_rows : List Text → Text → O.Store → Text × O.Store
  unfolding row
  append_rows [] query store = (query, store)
  append_rows (item ∷ items) query store =
      let trace = O.content item O.fresh_trace store in
      append_rows items (query ++ (row trace ++ codes ",")) (O.delete_node item store)

  -- The indexes of the next query, for a queue of the given length.
  unfoldable pub next_batch : ℕ → ℕ → O.Store → List Text
  unfolding resize_list
  next_batch max_request_trace_amount queue_length store =
      let index_list = O.main_indexes store in
      if ltb max_request_trace_amount queue_length
      then resize_list max_request_trace_amount index_list
      else index_list

  -- "Dump into DB"
  unfoldable pub dump : Option Text → O.Store → State → Option Bool × State
  dump none store s = (none, record s { store = store })
  dump (some query) store s =
      let (succeeded, database) = O.perform_query query s.database in
      (some succeeded, record { store = store; database = database; queries = query ∷ s.queries })

  -- A round of `while (queue_length > 0)`.
  unfoldable pub dump_round : ℕ → ℕ → State → Option Bool × State
  unfolding append_rows next_batch dump erase_from_last
  dump_round max_request_trace_amount queue_length s =
      let items = next_batch max_request_trace_amount queue_length s.store in
      let (query, store) = append_rows items insert_into s.store in
      dump (erase_from_last b',' query) store s

  -- `_request_traces->get_object_nodes()->auto_size()`, as a `uint`
  unfoldable pub queue_size : State → ℕ
  queue_size s = O.auto_size s.store % uint_mod

  -- Whether the loop goes on after a round.
  unfoldable pub go_on : Option Bool → Dumped × State → State → Dumped × State
  go_on none more s = (thrown, s)
  go_on (some true) more s = more
  go_on (some false) more s = (refused, s)

  unfoldable pub empty_queue : ℕ → ℕ → ℕ → State → Dumped × State
  unfolding dump_round queue_size go_on
  empty_queue zero max zero s = (drained, s)
  empty_queue zero max (suc queue_length) s = (unfinished, s)
  empty_queue (suc fuel) max zero s = (drained, s)
  empty_queue (suc fuel) max (suc queue_length) s =
      let (r, s') = dump_round max (suc queue_length) s in
      let more = empty_queue fuel max (queue_size s') s' in go_on r more s'

  -- Fuel counts the rounds, `max` is `_max_request_trace_amount`.
  unfoldable pub do_stuff : ℕ → ℕ → State → Dumped × State
  unfolding empty_queue queue_size
  do_stuff fuel max s = empty_queue fuel max (queue_size s) s
