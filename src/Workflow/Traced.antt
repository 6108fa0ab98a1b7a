-- ===== src/Workflow/Traced.antt =====
-- The log against the traces that were inserted, thread by thread.
use delfos.Prelude.{◌≡◌, refl, Bool, true, false, List, [], ◌∷◌, Option, none, some}
use delfos.Trace.{RequestTrace}
use delfos.World.{World}
use delfos.World.Requests.{Request, Event, event_of}
use delfos.Workflow.State.{Thread, sequence_thread, alive_thread, Entry, Handed}
use delfos.Workflow.Rules.{handed, answered}

-- An element in front of a list, if it is of the thread that is asked for.
abbrev pub of_thread : {A : Type 0} → Thread → Thread → A → List A → List A
of_thread sequence_thread sequence_thread x xs = x ∷ xs
of_thread sequence_thread alive_thread x xs = xs
of_thread alive_thread sequence_thread x xs = xs
of_thread alive_thread alive_thread x xs = x ∷ xs

module _ (W : World) where
  -- The requests of a thread, and the traces that it handed over.
  abbrev pub requests_of : Thread → List (Entry W.Json) → List (Entry W.Json)
  requests_of by [] = []
  requests_of by (e ∷ es) = of_thread by e.by e (requests_of by es)

  abbrev pub traces_of : Thread → List (Handed W.Json) → List (Handed W.Json)
  traces_of by [] = []
  traces_of by (h ∷ hs) = of_thread by h.by h (traces_of by hs)

module _ (W : World) (name : Request → Event) where
  -- One trace for each request, in the same order, by the same thread, with the command that `name`
  -- gives and the request's success.
  abbrev pub Matches : List (Entry W.Json) → List (Handed W.Json) → Type 0
  Matches [] [] = Unit
  Matches [] (h ∷ hs) = ⊥
  Matches (e ∷ es) [] = ⊥
  Matches (e ∷ es) (h ∷ hs) =
      (h.by ≡ e.by)
      × (h.trace.command ≡ W.as_string (name e.request))
      × (h.trace.success ≡ e.succeeded)
      × Matches es hs

  -- If traces are enabled they match the requests, but for the newest request if it is pending;
  -- otherwise there are none.
  abbrev pub Follows :
      Bool → Option (Entry W.Json) → List (Entry W.Json) → List (Handed W.Json) → Type 0
  Follows true none es hs = Matches es hs
  Follows true (some e) [] hs = ⊥
  Follows true (some e) (e' ∷ es) hs = (e' ≡ e) × Matches es hs
  Follows false q es hs = hs ≡ []

  -- The same for each thread; only the sequence has a pending request.
  abbrev Told : Bool → Option (Entry W.Json) → List (Entry W.Json) → List (Handed W.Json) → Type 0
  Told b q log inserted =
      Follows b q (requests_of W sequence_thread log) (traces_of W sequence_thread inserted)
      × Follows b none (requests_of W alive_thread log) (traces_of W alive_thread inserted)

  abbrev pub IsPending : Option (Entry W.Json) → List (Entry W.Json) → List (Handed W.Json) → Type 0
  IsPending q log inserted = Told W.trace_enable q log inserted

  abbrev pub IsNamed : List (Entry W.Json) → List (Handed W.Json) → Type 0
  IsNamed log inserted = IsPending none log inserted

  pub Follows-asked :
      (b : Bool) (e : Entry W.Json) (es : List (Entry W.Json)) (hs : List (Handed W.Json))
      → Follows b none es hs
      → Follows b (some e) (e ∷ es) hs
  Follows-asked true e es hs h = (refl, h)
  Follows-asked false e es hs h = h

  pub Follows-handed :
      (b : Bool) (e : Entry W.Json) (h : Handed W.Json) (es : List (Entry W.Json))
      (hs : List (Handed W.Json))
      → Follows b (some e) es hs
      → h.by ≡ e.by
      → h.trace.command ≡ W.as_string (name e.request)
      → h.trace.success ≡ e.succeeded
      → Follows b none es (handed b h hs)
  Follows-handed true e h [] hs f y c d = absurd f
  Follows-handed true e h (e' ∷ es) hs f y c d = rw f.0 (y, c, d, f.1)
  Follows-handed false e h es hs f y c d = f

  module _ (r : Request) (ok : Bool) (json : W.Json) (log : List (Entry W.Json))
      (inserted : List (Handed W.Json)) where
    asked : Thread → Entry W.Json
    asked by = record { by = by; request = r; succeeded = ok; answer = json }

    Told-asked :
        (b : Bool)
        → Told b none log inserted
        → Told b (some (asked sequence_thread)) (asked sequence_thread ∷ log) inserted
    unfolding asked
    Told-asked b h = (Follows-asked b _ _ _ h.0, h.1)

    module _ (t : RequestTrace W.Json) (c : t.command ≡ W.as_string (name r))
        (d : t.success ≡ ok) where
      Told-handed :
          (b : Bool)
          → Told b (some (asked sequence_thread)) log inserted
          → Told b none log (handed b (record { by = sequence_thread; trace = t }) inserted)
      unfolding asked
      Told-handed true h = (Follows-handed true _ _ _ _ h.0 refl c d, h.1)
      Told-handed false h = h

      Told-spoken :
          (b : Bool) (q : Option (Entry W.Json))
          → Told b q log inserted
          → Told b q
              (asked alive_thread ∷ log)
              (handed b (record { by = alive_thread; trace = t }) inserted)
      unfolding asked
      Told-spoken true q h = (h.0, (refl, c, d, h.1))
      Told-spoken false q h = h

  pub Follows-nil : (b : Bool) → Follows b none [] []
  Follows-nil true = tt
  Follows-nil false = refl

  Told-nil : (b : Bool) → Told b none [] []
  Told-nil b = (Follows-nil b, Follows-nil b)

  pub IsNamed-nil : IsNamed [] []
  IsNamed-nil = Told-nil W.trace_enable

  module _ (r : Request) (answer : Bool × W.Json) (log : List (Entry W.Json))
      (inserted : List (Handed W.Json)) where
    pub IsPending-asked :
        IsNamed log inserted
        → IsPending
            (some (answered sequence_thread r answer))
            (answered sequence_thread r answer ∷ log)
            inserted
    unfolding asked
    IsPending-asked = Told-asked r answer.0 answer.1 log inserted W.trace_enable

    module _ (t : RequestTrace W.Json) where
      pub IsNamed-handed :
          IsPending (some (answered sequence_thread r answer)) log inserted
          → t.command ≡ W.as_string (name r)
          → t.success ≡ answer.0
          → IsNamed log
              (handed W.trace_enable (record { by = sequence_thread; trace = t }) inserted)
      unfolding asked
      IsNamed-handed h c d = Told-handed r answer.0 answer.1 log inserted t c d W.trace_enable h

      pub IsPending-spoken :
          (q : Option (Entry W.Json))
          → IsPending q log inserted
          → t.command ≡ W.as_string (name r)
          → t.success ≡ answer.0
          → IsPending q
              (answered alive_thread r answer ∷ log)
              (handed W.trace_enable (record { by = alive_thread; trace = t }) inserted)
      unfolding asked
      IsPending-spoken q h c d =
          Told-spoken r answer.0 answer.1 log inserted t c d W.trace_enable q h

-- Each trace names the command of its own request.
abbrev pub IsTraced : (W : World) → List (Entry W.Json) → List (Handed W.Json) → Type 0
IsTraced W = IsNamed W event_of
