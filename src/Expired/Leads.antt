-- ===== src/Expired/Leads.antt =====
-- What an `ExpiredWorkflow` asks.
use delfos.Prelude.{
  ℕ, zero, suc, ◌+◌, ◌-◌, ◌*◌, ◌≡◌, refl, Bool, true, not, ◌&&◌, List, [], ◌∷◌, ◌++◌, Option, none,
  Text, is_empty, ltb, length, take, replicate, length-append, length-take, length-replicate, arith,
}
use delfos.World.{World}
use delfos.World.Requests.{
  Request, request_lead, webuser_request_lead, scheduled_from_landing, event_of,
}
use delfos.Monad.{Exit, broke, threw, hung, Res, val, exit, pure, gets, modify}
use delfos.Monad.Triple.{
  Triple, Post, Triple-pure, Triple-leave, Triple-if, Triple-elim, Triple-weaken, Triple-fact, ◌⟫◌,
}
use delfos.Workflow.State.{Entry, Handed, sequence_thread, set_fields, ask}
use delfos.Workflow.Schedule.{traced_or_break}
use delfos.Workflow.Buckets.{get_agent_guid, get_branch_guid}
use delfos.Workflow.Calls.{workflow_phone, resize, random_phone, generate_random_phone}
use delfos.Workflow.Run.{increment_barrier, begin, forever, stopped}
use delfos.Workflow.Rules.{
  View, On, answered, KeptBy, Triple-ask, Triple-schedule, Triple-sleep_for, Triple-sleep_delta,
  Triple-break_if_stopped, Triple-traced_or_break,
}
use delfos.Workflow.Traced.{Follows, Follows-asked, Follows-handed, Follows-nil}
use delfos.Expired.{
  ExpiredFields, ExpiredSystem, turn, prepare, set_phone, schedule_lead, wait_period, body, finish,
  sequence, expired_iteration_period, ns_per_second,
}

-- A generated phone has twelve bytes, whatever was drawn.
length-random_phone : (digits : Text) → length (random_phone digits) ≡ 12
unfolding random_phone resize
length-random_phone digits =
    let phone = take (length workflow_phone - 6) workflow_phone ++ digits in
    omega (
      arith,
      length-append (take 12 phone) (replicate (12 - length phone) b'0'),
      length-take 12 phone,
      length-replicate {A = ℕ} (12 - length phone) b'0',
    )

module _ (W : World) where
  -- A lead that is scheduled at the bucket's branch, for a phone of twelve bytes.
  abbrev pub LandingLead : Request → Type 0
  LandingLead (request_lead d) =
      (d.action ≡ scheduled_from_landing) × (d.branch ≡ W.bucket.branch) × (length d.phone ≡ 12)
  LandingLead _ = ⊥

  -- Such requests only, all granted.
  abbrev pub AllGranted : List (Entry W.Json) → Type 0
  AllGranted [] = Unit
  AllGranted (e ∷ es) = LandingLead e.request × (e.succeeded ≡ true) × AllGranted es

  -- Such requests only, all granted but perhaps the last.
  abbrev pub Granted : List (Entry W.Json) → Type 0
  Granted [] = Unit
  Granted (e ∷ es) = LandingLead e.request × AllGranted es

  AllGranted-Granted : (es : List (Entry W.Json)) → AllGranted es → Granted es
  AllGranted-Granted [] h = tt
  AllGranted-Granted (e ∷ es) (a, b, c) = (a, c)

  -- If traces are enabled, one for each request, in order; otherwise none.
  abbrev pub InOrder : List (Entry W.Json) → List (Handed W.Json) → Type 0
  InOrder log inserted = Follows W event_of W.trace_enable none log inserted

  -- The log so far, where every request was granted, and where the last had the answer `ok`.
  record Good (q : Option (Entry W.Json)) (log : List (Entry W.Json))
      (inserted : List (Handed W.Json)) : Type 0 where
    all : AllGranted log
    traced : Follows W event_of W.trace_enable q log inserted

  record Asked (ok : Bool) (q : Option (Entry W.Json)) (log : List (Entry W.Json))
      (inserted : List (Handed W.Json)) : Type 0 where
    granted : Granted log
    all_if : ok ≡ true → AllGranted log
    traced : Follows W event_of W.trace_enable q log inserted

  abbrev SoFar : View W ExpiredFields
  SoFar q own log inserted = Good q log inserted

  abbrev After : Bool → View W ExpiredFields
  After ok q own log inserted = Asked ok q log inserted

  -- Out of the loop or of the code before it.
  abbrev Left : Exit → ExpiredSystem W → Type 0
  Left e s = Granted s.log × InOrder s.log s.inserted

  Good-Left : (e : Exit) (s : ExpiredSystem W) → On W SoFar s → Left e s
  Good-Left e s h = (AllGranted-Granted s.log h.all, h.traced)

  turn-KeptBy : (R : View W ExpiredFields) → KeptBy W (turn W) R
  unfolding turn
  turn-KeptBy R = record { kept = λ c t. Triple-pure tt }

  ask-SoFar :
      {A : Type 0} (f : W.State → A × W.State)
      → Triple (On W SoFar) (ask W f) (λ _. On W SoFar) Left
  ask-SoFar f = Triple-ask W SoFar f

  -- The request of a landing lead, under way.
  lead-SoFar :
      (r : Request)
      → LandingLead r
      → event_of r ≡ webuser_request_lead
      → Triple
          (On W SoFar)
          (traced_or_break W (turn W) webuser_request_lead r)
          (λ _. On W SoFar)
          Left
  lead-SoFar r landing named =
      Triple-weaken (λ _ s h. record { all = h.all_if refl; traced = h.traced }) (λ _ s h. h)
        (Triple-traced_or_break W (turn-KeptBy SoFar) (λ (ok, _). After ok)
          (λ (ok, _). turn-KeptBy (After ok)) webuser_request_lead r
          (
            λ answer own log inserted h. record {
              granted = (landing, h.all);
              all_if = λ e. (landing, e, h.all);
              traced = Follows-asked W event_of W.trace_enable _ log inserted h.traced;
            },
            λ answer own log inserted t h c d. record {
              granted = h.granted;
              all_if = h.all_if;
              traced =
                  Follows-handed W event_of W.trace_enable (answered sequence_thread r answer) _ log
                    inserted h.traced refl (rw named c) d;
            },
          )
          (λ json s h. (h.granted, h.traced)))

  phone-SoFar :
      Triple
        (On W SoFar)
        (generate_random_phone W)
        (λ phone s. On W SoFar s × (length phone ≡ 12))
        Left
  unfolding generate_random_phone pure
  phone-SoFar = ask-SoFar W.draw_phone ⟫ λ drawn. record {
    at = λ s h. (h, length-random_phone (W.to_string drawn));
  }

  set_phone-SoFar :
      (phone : Text) → Triple (On W SoFar) (modify (set_phone W phone)) (λ _. On W SoFar) Left
  unfolding modify set_phone
  set_phone-SoFar phone = record { at = λ s h. h }

  seed-SoFar : Triple (On W SoFar) (gets (λ s. s.seed_guid)) (λ _. On W SoFar) Left
  unfolding gets
  seed-SoFar = record { at = λ s h. h }

  schedule_lead-SoFar :
      (branch : Text)
      → branch ≡ W.bucket.branch
      → Triple (On W SoFar) (schedule_lead W branch) (λ _. On W SoFar) Left
  unfolding schedule_lead
  schedule_lead-SoFar branch e = ask-SoFar W.new_guid ⟫ λ metadata. phone-SoFar ⟫ λ phone.
      Triple-fact λ twelve. set_phone-SoFar phone ⟫ λ _. ask-SoFar W.now ⟫ λ now.
      seed-SoFar ⟫ λ seed. lead-SoFar _ (refl, e, twelve) refl ⟫ λ _. Triple-pure tt

  wait_period-SoFar :
      (init_time fuel : ℕ)
      → Triple (On W SoFar) (wait_period W init_time fuel) (λ _. On W SoFar) Left
  unfolding wait_period
  wait_period-SoFar init_time zero = Triple-leave hung (Good-Left hung)
  wait_period-SoFar init_time (suc fuel) = Triple-schedule W (turn-KeptBy SoFar) ⟫ λ _.
      ask-SoFar W.can_continue ⟫ λ go_on.
      Triple-elim go_on
        (ask-SoFar W.now ⟫ λ now.
          Triple-elim (ltb (init_time + expired_iteration_period * ns_per_second) now)
            (Triple-pure tt)
            (Triple-sleep_for W (turn-KeptBy SoFar) _ ⟫ λ _. wait_period-SoFar init_time fuel))
        (Triple-pure tt)

  body-SoFar :
      (fuel : ℕ) (branch : Text)
      → branch ≡ W.bucket.branch
      → Triple (On W SoFar) (body W fuel branch) (λ _. On W SoFar) Left
  unfolding body
  body-SoFar fuel branch e = Triple-break_if_stopped W (turn-KeptBy SoFar) (Good-Left broke) ⟫ λ _.
      Triple-sleep_delta W (turn-KeptBy SoFar) ⟫ λ _.
      schedule_lead-SoFar branch e ⟫ λ _. ask-SoFar W.now ⟫ λ now. wait_period-SoFar now fuel

  loop-SoFar :
      (rounds fuel : ℕ) (branch : Text)
      → branch ≡ W.bucket.branch
      → Triple (On W SoFar) (forever W (turn W) rounds (body W fuel branch)) (λ _. On W SoFar) Left
  unfolding forever
  loop-SoFar zero fuel branch e = Triple-leave hung (Good-Left hung)
  loop-SoFar (suc rounds) fuel branch e =
      body-SoFar fuel branch e ⟫ λ _. loop-SoFar rounds fuel branch e

  prepare-SoFar :
      Triple (On W SoFar) (prepare W) (λ branch s. On W SoFar s × (branch ≡ W.bucket.branch)) Left
  unfolding prepare increment_barrier get_agent_guid get_branch_guid modify gets pure
  prepare-SoFar = counted ⟫ λ _. position ⟫ λ i.
      Triple-if (not (is_empty W.bucket.agents) && ltb i (length W.bucket.agents))
        (λ _. Triple-pure _) (λ _. Triple-leave threw (Good-Left threw))
      ⟫ λ _. record { at = λ s h. (h, refl) }
    where
      counted : Triple (On W SoFar) (increment_barrier W (turn W)) (λ _. On W SoFar) Left
      counted = record { at = λ s h. h }

      position : Triple (On W SoFar) (gets (λ s. s.agent_position)) (λ _. On W SoFar) Left
      position = record { at = λ s h. h }

  finish-Left :
      (r : Res (Unit {0})) (s : ExpiredSystem W)
      → Post (λ _. On W SoFar) Left r s
      → Left broke (finish W r s).1
  unfolding finish stopped set_fields
  finish-Left (val a) s h = Good-Left broke s h
  finish-Left (exit broke) s h = h
  finish-Left (exit threw) s h = h
  finish-Left (exit hung) s h = h

  -- Whatever the servers answer, a new ExpiredWorkflow asks for nothing but scheduled leads at the
  -- bucket's branch, each for a phone of twelve characters, every request but the last having been
  -- granted; and, if traces are enabled, it has handed over one trace for each, in order, with the
  -- command and the success.
  pub sequence-Granted :
      (fuel : ℕ) (s : ExpiredSystem W)
      → s.log ≡ []
      → s.inserted ≡ []
      → let s' = (sequence W fuel s).1 in Granted s'.log × InOrder s'.log s'.inserted
  unfolding sequence begin set_fields
  sequence-Granted fuel s no_requests no_traces = finish-Left _ _ (
      (prepare-SoFar ⟫ λ branch. Triple-fact λ e. loop-SoFar fuel fuel branch e).at _ (record {
        all = rw no_requests tt;
        traced = rw (no_requests, no_traces) (Follows-nil W event_of W.trace_enable);
      }))
