-- ===== src/Workflow/Rules.antt =====
-- Rules for the shared operations, over predicates of the request of the sequence whose trace is yet
-- to be handed over, the derived class's fields, the log and the traces that were inserted. Such a predicate holds whatever the world and the other fields become.
use delfos.Prelude.{ℕ, ◌≡◌, refl, Bool, true, false, not, List, [], ◌∷◌, Option, none, some, Text}
use delfos.Trace.{RequestTrace, start, set_response, assign}
use delfos.World.{World, Turn}
use delfos.World.Requests.{Request, Event}
use delfos.Monad.{Exit, broke, M, pure, modify, when, ◌>>=◌}
use delfos.Monad.Triple.{
  Triple, Triple-pure, Triple-leave, Triple-if, Triple-contained, Triple-weaken,
  Triple-leave_unless, ◌⟫◌,
}
use delfos.Workflow.State.{
  Thread, sequence_thread, alive_thread, Entry, Handed, System, ask, perform, set_fields,
}
use delfos.Workflow.Traces.{
  new_trace, init_trace, end_trace, insert_node, init_trace_alive, end_trace_alive, traced_alive,
}
use delfos.Workflow.Schedule.{
  run_turns, schedule, sleep_for, sleep_delta, break_if_stopped, traced, traced_or_break,
}

abbrev pub View : World → Type 0 → Type 1
View W X = Option (Entry W.Json) → X → List (Entry W.Json) → List (Handed W.Json) → Type 0

-- What `end_trace` hands over.
abbrev pub handed {ℓ} : {A : Type ℓ} → Bool → A → List A → List A
handed true t ts = t ∷ ts
handed false t ts = ts

-- The command that the sequence's trace names, and the request that was made and not yet handed over.
pub record Doing (J : Type 0) : Type 0 where
  pub command : Text
  pub pending : Option (Entry J)

-- A request of a thread, with its answer.
abbrev pub answered : {J : Type 0} → Thread → Request → Bool × J → Entry J
answered by r answer = record { by = by; request = r; succeeded = answer.0; answer = answer.1 }

module _ (W : World) where
  -- What the sequence is doing before its request of an event, and after.
  abbrev begun : Event → Doing W.Json
  begun event = record { command = W.as_string event; pending = none }

  abbrev asked : Event → Request → Bool × W.Json → Doing W.Json
  asked event r answer = record {
    command = W.as_string event;
    pending = some (answered sequence_thread r answer);
  }

module _ (W : World) {X : Type 0} where
  abbrev pub On : View W X → System W X → Type 0
  On R s = R none s.own s.log s.inserted

  -- The same within a request of the sequence.
  abbrev pub During : View W X → Doing W.Json → System W X → Type 0
  During R c s = R c.pending s.own s.log s.inserted × (s.trace.command ≡ c.command)

  -- `R'` holds once a request has been made, answered by `ok`, and then still when its trace has been
  -- handed over. The alive thread does both in one step, at whatever point of the sequence.
  abbrev pub Recorded : Thread → Event → Request → View W X → (Bool × W.Json → View W X) → Type 0
  Recorded alive_thread event r R R' =
      (answer : Bool × W.Json) (q : Option (Entry W.Json)) (own : X) (log : List (Entry W.Json))
      (inserted : List (Handed W.Json)) (t : RequestTrace W.Json)
      → R q own log inserted
      → t.command ≡ W.as_string event
      → t.success ≡ answer.0
      → R' answer q own (answered alive_thread r answer ∷ log)
          (handed W.trace_enable (record { by = alive_thread; trace = t }) inserted)
  Recorded sequence_thread event r R R' =
      ((answer : Bool × W.Json) (own : X) (log : List (Entry W.Json))
          (inserted : List (Handed W.Json))
        → R none own log inserted
        → R' answer (some (answered sequence_thread r answer)) own
            (answered sequence_thread r answer ∷ log) inserted)
      × ((answer : Bool × W.Json) (own : X) (log : List (Entry W.Json))
            (inserted : List (Handed W.Json)) (t : RequestTrace W.Json)
          → R' answer (some (answered sequence_thread r answer)) own log inserted
          → t.command ≡ W.as_string event
          → t.success ≡ answer.0
          → R' answer none own log
              (handed W.trace_enable (record { by = sequence_thread; trace = t }) inserted))

  -- A turn of another thread keeps the predicate, and the command of the trace under way.
  pub record KeptBy (turn : Turn W.Http → M (System W X) (Unit {0})) (R : View W X) : Type 0 where
    pub kept :
        (c : Doing W.Json) (t : Turn W.Http)
        → Triple (During R c) (turn t) (λ _. During R c) (λ _. During R c)

  module _ {Y : Exit → System W X → Type 0} where
    pub Triple-ask :
        {A : Type 0} (R : View W X) (f : W.State → A × W.State)
        → Triple (On R) (ask W f) (λ _. On R) Y
    unfolding ask
    Triple-ask R f = record { at = λ s h. h }

    ask-During :
        {A : Type 0} (R : View W X) (c : Doing W.Json) (f : W.State → A × W.State)
        → Triple (During R c) (ask W f) (λ _. During R c) Y
    unfolding ask
    ask-During R c f = record { at = λ s h. h }

    init_trace-During :
        (R : View W X) (event : Event)
        → Triple (On R) (init_trace W event) (λ _. During R (begun W event)) Y
    unfolding init_trace new_trace ask ◌>>=◌ set_fields assign start
    init_trace-During R event = record { at = λ s h. (h, refl) }

    insert-On :
        (R' : View W X) (b : Bool) (t : RequestTrace W.Json)
        → Triple
            (λ s.
              R' none s.own s.log
                (handed b (record { by = sequence_thread; trace = t }) s.inserted))
            (when b (modify (insert_node W sequence_thread t)))
            (λ _. On R')
            Y
    unfolding insert_node modify pure
    insert-On R' true t = record { at = λ s h. h }
    insert-On R' false t = record { at = λ s h. h }

    module _ (R : View W X) (R' : Bool × W.Json → View W X) (event : Event) (r : Request)
        (step : Recorded sequence_thread event r R R') where
      perform-During :
          Triple
            (During R (begun W event))
            (perform W sequence_thread r)
            (λ answer. During (R' answer) (asked W event r answer))
            Y
      unfolding perform
      perform-During = record { at = λ s h. (step.0 _ s.own s.log s.inserted h.0, h.1) }

      end_trace-On :
          (answer : Bool × W.Json)
          → Triple
              (During (R' answer) (asked W event r answer))
              (end_trace W answer.0 answer.1)
              (λ _. On (R' answer))
              Y
      unfolding end_trace ask ◌>>=◌ set_fields set_response insert_node
      end_trace-On answer = record {
        at = λ s h.
            let t = set_response (W.now s.env).0 answer.0 answer.1 s.trace in
            (insert-On (R' answer) W.trace_enable t).at _
              (step.1 answer s.own s.log s.inserted t h.0 h.1 refl);
      }

    insert-During :
        (R' : View W X) (c : Doing W.Json) (b : Bool) (t : RequestTrace W.Json)
        → Triple
            (λ s.
              R' c.pending s.own s.log
                (handed b (record { by = alive_thread; trace = t }) s.inserted)
              × (s.trace.command ≡ c.command))
            (when b (modify (insert_node W alive_thread t)))
            (λ _. During R' c)
            Y
    unfolding insert_node modify pure
    insert-During R' c true t = record { at = λ s h. h }
    insert-During R' c false t = record { at = λ s h. h }

    pub Triple-traced_alive :
        (R : View W X) (R' : Bool × W.Json → View W X) (c : Doing W.Json) (event : Event)
        (r : Request)
        → Recorded alive_thread event r R R'
        → Triple (During R c) (traced_alive W event r) (λ answer. During (R' answer) c) Y
    unfolding traced_alive init_trace_alive new_trace perform end_trace_alive ask ◌>>=◌ set_fields
        assign start set_response insert_node
    Triple-traced_alive R R' c event r step =
        began ⟫ λ _. asked ⟫ λ answer. ended answer ⟫ λ _. Triple-pure answer
      where
        Began : System W X → Type 0
        Began s = During R c s × (s.trace_alive.command ≡ W.as_string event)

        Asked : Bool × W.Json → System W X → Type 0
        Asked answer s =
            (log : List (Entry W.Json)) × Began (record s { log = log })
            × (s.log ≡ answered alive_thread r answer ∷ log)

        began : Triple (During R c) (init_trace_alive W event) (λ _. Began) Y
        began = record { at = λ s h. (h, refl) }

        asked : Triple Began (perform W alive_thread r) Asked Y
        asked = record { at = λ s h. (s.log, h, refl) }

        ended :
            (answer : Bool × W.Json)
            → Triple
                (Asked answer)
                (end_trace_alive W answer.0 answer.1)
                (λ _. During (R' answer) c)
                Y
        ended answer = record {
          at = λ s (log, ((h, d), e), l).
              let t = set_response (W.now s.env).0 answer.0 answer.1 s.trace_alive in
              (insert-During (R' answer) c W.trace_enable t).at _
                (rw l (step answer c.pending s.own log s.inserted t h e refl), d);
        }

  module _ {turn : Turn W.Http → M (System W X) (Unit {0})} {R : View W X} (k : KeptBy turn R)
      {Y : Exit → System W X → Type 0} where
    run_turns-During :
        (c : Doing W.Json) (ts : List (Turn W.Http))
        → Triple (During R c) (run_turns W turn ts) (λ _. During R c) Y
    unfolding run_turns
    run_turns-During c [] = Triple-pure tt
    run_turns-During c (t ∷ ts) = Triple-contained (k.kept c t) ⟫ λ _. run_turns-During c ts

    schedule-During : (c : Doing W.Json) → Triple (During R c) (schedule W turn) (λ _. During R c) Y
    unfolding schedule
    schedule-During c = ask-During R c W.others ⟫ λ ts. run_turns-During c ts

  module _ {turn : Turn W.Http → M (System W X) (Unit {0})} {R : View W X} (k : KeptBy turn R)
      {Y : Exit → System W X → Type 0} where
    pub Triple-schedule : Triple (On R) (schedule W turn) (λ _. On R) Y
    Triple-schedule = record {
      at = λ s h.
          (Triple-weaken (λ _ s h. h.0) (λ _ s h. h)
              (schedule-During k (record { command = s.trace.command; pending = none }))).at
            s (h, refl);
    }

    pub Triple-sleep_for : (ms : ℕ) → Triple (On R) (sleep_for W turn ms) (λ _. On R) Y
    unfolding sleep_for
    Triple-sleep_for ms = Triple-ask R _ ⟫ λ _. Triple-schedule

    pub Triple-sleep_delta : Triple (On R) (sleep_delta W turn) (λ _. On R) Y
    unfolding sleep_delta
    Triple-sleep_delta = Triple-ask R _ ⟫ λ ms. Triple-sleep_for ms

    pub Triple-break_if_stopped :
        ((s : System W X) → On R s → Y broke s)
        → Triple (On R) (break_if_stopped W turn) (λ _. On R) Y
    unfolding break_if_stopped
    Triple-break_if_stopped out = Triple-schedule ⟫ λ _. Triple-ask R _ ⟫ λ go_on.
        Triple-if (not go_on) (λ _. Triple-leave broke out) (λ _. Triple-pure tt)

    module _ (R' : Bool × W.Json → View W X)
        (k' : (answer : Bool × W.Json) → KeptBy turn (R' answer)) (event : Event) (r : Request)
        (step : Recorded sequence_thread event r R R') where
      pub Triple-traced : Triple (On R) (traced W turn event r) (λ answer. On (R' answer)) Y
      unfolding traced
      Triple-traced = init_trace-During R event ⟫ λ _. schedule-During k _ ⟫ λ _.
          perform-During R R' event r step ⟫ λ answer. schedule-During (k' answer) _ ⟫ λ _.
          end_trace-On R R' event r step answer ⟫ λ _. Triple-pure answer

      pub Triple-traced_or_break :
          ((json : W.Json) (s : System W X) → On (R' (false, json)) s → Y broke s)
          → Triple (On R) (traced_or_break W turn event r) (λ json. On (R' (true, json))) Y
      unfolding traced_or_break
      Triple-traced_or_break out = Triple-traced ⟫ λ answer.
          Triple-leave_unless (λ ok. On (R' (ok, answer.1))) answer.0 broke (out answer.1) ⟫ λ _.
          Triple-pure answer.1
