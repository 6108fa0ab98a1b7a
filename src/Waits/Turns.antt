-- ===== src/Waits/Turns.antt =====
-- What the other threads do under a clock that is not set back.
use delfos.Prelude.{ℕ, List, [], ◌∷◌, not, ◌&&◌, Text, is_empty, ◌==◌, ltb, length, refl}
use delfos.World.{World, Turn, alive_turn, event_turn, request_turn}
use delfos.Monad.{Exit, broke, threw, Res, val, exit, M}
use delfos.Monad.Triple.{
  Triple, Post, Post-same, Triple-pure, Triple-leave, Triple-leave_unless, Triple-if,
  Triple-contained, ◌⟫◌,
}
use delfos.Workflow.State.{System, AliveThread, absent, starting, ended, joined, active, set_fields}
use delfos.Workflow.Buckets.{get_agent_guid}
use delfos.Workflow.Calls.{store_user_id, alive_lm, alive_gari}
use delfos.Workflow.Schedule.{
  handle, live_round, take_guid, live_on, alive_step, run_turns, schedule,
}
use delfos.Twilio.{Tracker, lead_event}
use delfos.Twilio.Incoming.{inbound_event, inbound_request, iv_event, iv_request}
use delfos.Desktop.{tracking, speak}
use delfos.Cmn.State
use delfos.Cmn.Alive
use delfos.Inbound
use delfos.Iv
use delfos.Scheduled
use delfos.Waits.{IsClock, Late, Ticks, ask-Late, modify-Late, gets-Late, traced_alive-Late}

module _ {W : World} {time : W.State → ℕ} (clock : IsClock W time) {X : Type 0} (T : ℕ) where
  store_user_id-Ticks : (json : W.Json) → Ticks time {X = X} T (store_user_id W json)
  unfolding store_user_id set_fields
  store_user_id-Ticks json =
      let key = W.keys.room_user_id in
      Triple-if (W.has_member json key && W.is_uint (W.member json key))
        (λ _. modify-Late clock T _ (λ s. refl)) (λ _. Triple-pure tt)

  alive_gari-Ticks : (room : Text) → Ticks time {X = X} T (alive_gari W room)
  unfolding alive_gari
  alive_gari-Ticks room = gets-Late clock T (λ s. s.gari_user_guid) ⟫ λ u.
      Triple-if (u == 0)
        (λ _. traced_alive-Late clock T _ _ ⟫ λ answer.
          Triple-leave_unless (λ _. Late time T) answer.0 threw (λ s h. h) ⟫ λ _.
          store_user_id-Ticks answer.1)
        (λ _. traced_alive-Late clock T _ _ ⟫ λ answer.
          Triple-leave_unless (λ _. Late time T) answer.0 threw (λ s h. h))

  speak-Ticks :
      (agent session lead room : Text) → Ticks time {X = X} T (speak W agent session lead room)
  unfolding speak alive_lm
  speak-Ticks agent session lead room =
      (traced_alive-Late clock T _ _ ⟫ λ answer.
      Triple-leave_unless (λ _. Late time T) answer.0 threw (λ s h. h))
      ⟫ λ _. Triple-if (not (is_empty room)) (λ _. alive_gari-Ticks room) (λ _. Triple-pure tt)

  -- A round that ends in an exception ends the thread, at the same time.
  live_round-Ticks :
      (round : Text → M (System W X) (Unit {0})) (guid : Text)
      → Ticks time T (round guid)
      → Ticks time T (live_round W round guid)
  unfolding live_round handle
  live_round-Ticks round guid ticks = record {
    at = λ s h. handled (round guid s).0 (round guid s).1 (ticks.at s h);
  }
    where
      handled :
          (r : Res (Unit {0})) (s : System W X)
          → Post (λ _. Late time T) (λ _. Late time T) r s
          → Post (λ _. Late time T) (λ _. Late time T) (handle W r s).0 (handle W r s).1
      handled (val a) s h = h
      handled (exit e) s h = h

  alive_step-Ticks :
      (round : Text → M (System W X) (Unit {0}))
      → ((guid : Text) → Ticks time T (round guid))
      → Ticks time T (alive_step W round)
  unfolding alive_step take_guid get_agent_guid
  alive_step-Ticks round ticks = gets-Late clock T (λ s. s.alive) ⟫ cases
    where
      cases : (t : AliveThread) → Ticks time T (live_on W round t)
      cases absent = Triple-pure tt
      cases ended = Triple-pure tt
      cases joined = Triple-pure tt
      cases starting = gets-Late clock T (λ s. s.agent_position) ⟫ λ i.
          Triple-if (not (is_empty W.bucket.agents) && ltb i (length W.bucket.agents))
            (λ _. Triple-pure _) (λ _. Triple-leave threw (λ s h. h))
          ⟫ λ guid. modify-Late clock T _ (λ s. refl)
      cases (active guid) = live_round-Ticks round guid (ticks guid)

  tracking-Ticks :
      {A : Type 0} (tracker : X → Tracker W.Call) (set_tracker : Tracker W.Call → X → X)
      (m : M (Tracker W.Call) A)
      → Ticks time T (tracking W tracker set_tracker m)
  unfolding tracking
  tracking-Ticks tracker set_tracker m = record {
    at = λ s h. Post-same (Late time T) (m (tracker s.own)).0 _ h;
  }

  module _ {turn : Turn W.Http → M (System W X) (Unit {0})}
      (ticks : (t : Turn W.Http) → Ticks time T (turn t)) {Y : Exit → System W X → Type 0} where
    run_turns-Late :
        (ts : List (Turn W.Http)) → Triple (Late time T) (run_turns W turn ts) (λ _. Late time T) Y
    unfolding run_turns
    run_turns-Late [] = Triple-pure tt
    run_turns-Late (t ∷ ts) = Triple-contained (ticks t) ⟫ λ _. run_turns-Late ts

    pub schedule-Late : Triple (Late time T) (schedule W turn) (λ _. Late time T) Y
    unfolding schedule
    schedule-Late = ask-Late clock T W.others clock.lets_others ⟫ λ turns. run_turns-Late turns

module _ {W : World} {time : W.State → ℕ} (clock : IsClock W time) (T : ℕ) where
  pub inbound_turn-Ticks : (t : Turn W.Http) → Ticks time T (Inbound.turn W t)
  unfolding Inbound.turn Inbound.alive_round Inbound.twilio_event Inbound.twilio_request
  inbound_turn-Ticks alive_turn = alive_step-Ticks clock T _ λ g.
      gets-Late clock T (λ s. s.own.session_guid) ⟫ λ session.
      gets-Late clock T (λ s. s.own.lead_guid) ⟫ λ lead.
      Triple-if (is_empty session) (λ _. Triple-pure tt)
        (λ _. speak-Ticks clock T g session lead lead)
  inbound_turn-Ticks (event_turn http) =
      tracking-Ticks clock T (λ own. own.tracker) (Inbound.set_tracker W) (inbound_event W http)
      ⟫ λ _. Triple-pure tt
  inbound_turn-Ticks (request_turn http response) =
      tracking-Ticks clock T (λ own. own.tracker) (Inbound.set_tracker W) (inbound_request W http)
      ⟫ λ _. Triple-pure tt

  pub iv_turn-Ticks : (t : Turn W.Http) → Ticks time T (Iv.turn W t)
  unfolding Iv.turn Iv.alive_round Iv.flag Iv.twilio_event Iv.twilio_request
  iv_turn-Ticks alive_turn = alive_step-Ticks clock T _ λ g.
      gets-Late clock T (λ s. s.own.session_guid) ⟫ λ session.
      gets-Late clock T (λ s. s.own.lead_guid) ⟫ λ lead. gets-Late clock T (λ s. s.own.pin) ⟫ λ pin.
      Triple-if (is_empty session) (λ _. Triple-pure tt)
        (λ _. speak-Ticks clock T g session lead lead ⟫ λ _.
          Triple-if (not (is_empty pin))
            (λ _. traced_alive-Late clock T _ _ ⟫ λ answer.
              Triple-leave_unless (λ _. Late time T) answer.0 broke (λ s h. h))
            (λ _. Triple-pure tt))
  iv_turn-Ticks (event_turn http) =
      tracking-Ticks clock T (λ own. own.tracker) (Iv.set_tracker W) (iv_event W http) ⟫ λ _.
      Triple-pure tt
  iv_turn-Ticks (request_turn http response) =
      tracking-Ticks clock T (λ own. own.tracker) (Iv.set_tracker W) (iv_request W http response)
      ⟫ λ _. Triple-pure tt

  pub scheduled_turn-Ticks : (t : Turn W.Http) → Ticks time T (Scheduled.turn W t)
  unfolding Scheduled.turn Scheduled.alive_round Scheduled.twilio_event
  scheduled_turn-Ticks alive_turn = alive_step-Ticks clock T _ λ g.
      gets-Late clock T (λ s. s.own.session_guid) ⟫ λ session.
      gets-Late clock T (λ s. s.own.lead_guid) ⟫ λ lead.
      gets-Late clock T (λ s. s.own.lead_session_guid) ⟫ λ room.
      Triple-if (is_empty session) (λ _. Triple-pure tt)
        (λ _. speak-Ticks clock T g session lead room)
  scheduled_turn-Ticks (event_turn http) =
      tracking-Ticks clock T (λ own. own.tracker) (Scheduled.set_tracker W) (lead_event W http)
      ⟫ λ _. Triple-pure tt
  scheduled_turn-Ticks (request_turn http response) = Triple-pure tt

  pub cmn_turn-Ticks : (t : Turn W.Http) → Ticks time T (Alive.turn W t)
  unfolding Alive.turn Alive.alive_round Alive.twilio_event State.tracking speak alive_lm
  cmn_turn-Ticks alive_turn = alive_step-Ticks clock T _ λ g.
      gets-Late clock T (λ s. s.own.session_guid) ⟫ λ session.
      gets-Late clock T (λ s. s.own.lead_guid) ⟫ λ lead.
      Triple-if (is_empty session) (λ _. Triple-pure tt)
        (λ _. speak-Ticks clock T g session lead lead)
  cmn_turn-Ticks (event_turn http) = tracked (lead_event W http) ⟫ λ _. Triple-pure tt
    where
      tracked : {A : Type 0} (m : M (Tracker W.Call) A) → Ticks time T (State.tracking W m)
      tracked m = record { at = λ s h. Post-same (Late time T) (m s.own.tracker).0 _ h }
  cmn_turn-Ticks (request_turn http response) = Triple-pure tt
