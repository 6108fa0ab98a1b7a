-- ===== src/Iv.antt =====
-- workflows/IVWorkflow.h and IVWorkflow.cpp: an agent logs in, and a customer calls with a pin, by
-- video.
pub mod Protocol
pub mod Obeys
pub mod Runs
use delfos.Prelude.{ℕ, false, [], ◌∷◌, Bool, not, ◌&&◌, Text, codes, is_empty, if◌then◌else◌}
use delfos.Barrier.{Barrier}
use delfos.World.{World, Turn, alive_turn, event_turn, request_turn}
use delfos.World.Requests.{
  AgentStatus, iv_flag, iv_new_session, webuser_iv_flag, webuser_iv_new_session,
}
use delfos.Monad.{M, broke, pure, gets, modify, leave_if, when, ◌>>=◌, ◌>>◌}
use delfos.Workflow.State.{System, ask, set_own}
use delfos.Workflow.Construct.{construct}
use delfos.Workflow.Buckets.{get_branch_guid}
use delfos.Workflow.Calls.{generate_random_phone}
use delfos.Workflow.Traces.{traced_alive}
use delfos.Workflow.Schedule
use delfos.Workflow.Run
use delfos.Workflow.Run.{Outcome}
use delfos.Twilio.{Tracker, set_bridged, set_call}
use delfos.Twilio.Incoming.{iv_event, iv_request}
use delfos.Desktop
use delfos.Desktop.{Staff, lead_found}

pub record IvFields (C : Type 0) : Type 0 where
  pub session_guid : Text
  pub lead_guid : Text
  pub pin : Text
  pub tracker : Tracker C
  pub open tracker use *

module _ (W : World) where
  abbrev pub Own : Type 0
  Own = IvFields W.Call

  abbrev pub IvSystem : Type 0
  IvSystem = System W Own

  abbrev pub set_session : Text → Own → Own
  set_session guid own = record own { session_guid = guid }

  abbrev pub set_lead : Text → Own → Own
  set_lead guid own = record own { lead_guid = guid }

  abbrev pub set_pin : Text → Own → Own
  set_pin guid own = record own { pin = guid }

  abbrev pub set_tracker : Tracker W.Call → Own → Own
  set_tracker t own = record own { tracker = t }

  -- The constructor.
  unfoldable pub new_workflow : ℕ → Barrier → W.State → IvSystem
  unfolding construct
  new_workflow agent_position = construct W (codes "iv") agent_position (record {
    session_guid = [];
    lead_guid = [];
    pin = [];
    tracker = record { lead_customer_phone = []; call = W.new_call; call_bridged = false };
  })

  abbrev pub tracked : {A : Type 0} → M (Tracker W.Call) A → M IvSystem A
  tracked m = Desktop.tracking W (λ own. own.tracker) set_tracker m

  -- A failure ends the alive thread.
  unfoldable pub flag : Text → M IvSystem (Unit {0})
  flag pin = do answer ← traced_alive W webuser_iv_flag (iv_flag pin); leave_if (not answer.0) broke

  -- One round of `alive_worker`, which holds `_session_mutex`.
  unfoldable pub alive_round : Text → M IvSystem (Unit {0})
  unfolding flag
  alive_round agent_guid = do
    session_guid ← gets (λ s. s.own.session_guid)
    lead_guid ← gets (λ s. s.own.lead_guid)
    pin ← gets (λ s. s.own.pin)
    if is_empty session_guid then pure tt else (do
      Desktop.speak W agent_guid session_guid lead_guid lead_guid
      when (not (is_empty pin)) (flag pin))

  unfoldable pub twilio_event : W.Http → M IvSystem Bool
  twilio_event http = tracked (iv_event W http)

  unfoldable pub twilio_request : W.Http → W.Http → M IvSystem Bool
  twilio_request http response = tracked (iv_request W http response)

  unfoldable pub turn : Turn W.Http → M IvSystem (Unit {0})
  unfolding alive_round twilio_event twilio_request
  turn alive_turn = Schedule.alive_step W (alive_round)
  turn (event_turn http) = do twilio_event http; pure tt
  turn (request_turn http response) = do twilio_request http response; pure tt

  unfoldable pub prepare : M IvSystem Staff
  prepare = do a ← Desktop.staff W turn; Run.gari_create_seed W turn; Run.spawn_alive W turn; pure a

  -- The pin in the answer to `request_ivnewsession`; without one, the field stays.
  unfoldable pub pin_found : W.Json → Text → Text
  pin_found json pin =
      let answer = W.member json W.keys.pin_return in
      if W.has_member json W.keys.pin_return
        && W.is_object answer
        && W.has_member answer W.keys.pin_key
        && W.is_string (W.member answer W.keys.pin_key)
      then W.get_string (W.member answer W.keys.pin_key)
      else pin

  -- "IV New pin", with its capture under the lock.
  unfoldable pub new_pin : Text → M IvSystem Text
  unfolding pin_found
  new_pin branch_id = do
    json ← Desktop.traced_or_break W turn webuser_iv_new_session (iv_new_session branch_id)
    Desktop.lock W turn
    modify (set_own W (λ own. set_pin (pin_found json own.pin) own))
    gets (λ s. s.own.pin)

  -- The call of the customer, made through the mockup of Twilio.
  unfoldable pub call_iv : Text → M IvSystem (Unit {0})
  call_iv pin = do
    tracked (modify (set_bridged W false))
    phone ← generate_random_phone W
    tracked (modify (λ t. record t { lead_customer_phone = phone }))
    ask W (λ e. (tt, W.request_call (phone ∷ W.bucket.iv_phone ∷ pin ∷ []) e))

  -- The loop's body up to the pin: it gives the session's guid and the branch's.
  unfoldable pub desktop : Staff → M IvSystem (Text × Text)
  desktop a = do
    Desktop.break_if_stopped W turn
    Desktop.sleep_delta W turn
    Desktop.getvateams W turn a.agent_guid a.agent_vacenters
    Desktop.sleep_delta W turn
    Desktop.break_if_stopped W turn
    session_guid ← Desktop.login W turn set_session (λ own. own.session_guid) a.agent_guid
    Desktop.sleep_delta W turn
    Desktop.break_if_stopped W turn
    Desktop.change_status W turn AgentStatus.available a.agent_guid session_guid
    Desktop.sleep_delta W turn
    Desktop.break_if_stopped W turn
    Desktop.check_vateams W turn a.agent_guid session_guid a.agent_vateams
    branch_id ← get_branch_guid W
    Desktop.get_availability W turn branch_id
    Desktop.sleep_delta W turn
    Desktop.break_if_stopped W turn
    pure (session_guid, branch_id)

  -- The rest of the body.
  unfoldable pub talk : ℕ → Staff → Text × Text → M IvSystem (Unit {0})
  unfolding lead_found
  talk fuel a (session_guid, branch_id) = do
    pin ← new_pin branch_id
    Desktop.sleep_delta W turn
    Desktop.break_if_stopped W turn
    call_iv pin
    Desktop.wait_bridged W turn (λ own. own.call_bridged)
        (λ own. set_tracker (set_call W W.clear_call own.tracker) own) fuel
    json ←
        Desktop.open_session W turn (λ own. own.lead_customer_phone) (λ own. own.session_guid)
          a.agent_guid
    lead_guid ← Desktop.capture_lead W turn (set_lead (lead_found W json)) (λ own. own.lead_guid)
    Desktop.sleep_delta W turn
    Desktop.break_if_stopped W turn
    Desktop.set_result W turn (λ own. record own { pin = []; lead_guid = [] }) lead_guid
    Desktop.sleep_delta W turn
    Desktop.break_if_stopped W turn
    Desktop.logout W turn (set_session []) a.agent_guid session_guid

  unfoldable pub body : ℕ → Staff → M IvSystem (Unit {0})
  body fuel a = do guids ← desktop a; talk fuel a guids

  -- `rounds` bounds the rounds of the loop, `fuel` those of a wait for a call.
  unfoldable pub sequence : ℕ → ℕ → IvSystem → Outcome × IvSystem
  sequence rounds fuel s = Run.run W turn prepare (body fuel) rounds s
