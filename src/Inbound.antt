-- ===== src/Inbound.antt =====
-- workflows/InboundWorkflow.h and InboundWorkflow.cpp: an agent logs in, and a customer calls the
-- visible phone of the service.
pub mod Protocol
pub mod Obeys
pub mod Runs
use delfos.Prelude.{ℕ, false, [], ◌∷◌, Bool, Text, codes, is_empty, if◌then◌else◌}
use delfos.Barrier.{Barrier}
use delfos.World.{World, Turn, alive_turn, event_turn, request_turn}
use delfos.World.Requests.{AgentStatus}
use delfos.Monad.{M, pure, gets, modify, ◌>>=◌, ◌>>◌}
use delfos.Workflow.State.{System, ask, set_own}
use delfos.Workflow.Construct.{construct}
use delfos.Workflow.Buckets.{get_branch_guid}
use delfos.Workflow.Calls.{generate_random_phone}
use delfos.Workflow.Schedule
use delfos.Workflow.Run
use delfos.Workflow.Run.{Outcome}
use delfos.Twilio.{Tracker, set_bridged, set_call}
use delfos.Twilio.Incoming.{inbound_event, inbound_request}
use delfos.Desktop
use delfos.Desktop.{Staff, lead_found}

pub record InboundFields (C : Type 0) : Type 0 where
  pub session_guid : Text
  pub lead_guid : Text
  pub tracker : Tracker C
  pub open tracker use *

module _ (W : World) where
  abbrev pub Own : Type 0
  Own = InboundFields W.Call

  abbrev pub InboundSystem : Type 0
  InboundSystem = System W Own

  abbrev pub set_session : Text → Own → Own
  set_session guid own = record own { session_guid = guid }

  abbrev pub set_lead : Text → Own → Own
  set_lead guid own = record own { lead_guid = guid }

  abbrev pub set_tracker : Tracker W.Call → Own → Own
  set_tracker t own = record own { tracker = t }

  -- The constructor.
  unfoldable pub new_workflow : ℕ → Barrier → W.State → InboundSystem
  unfolding construct
  new_workflow agent_position = construct W (codes "inbound") agent_position (record {
    session_guid = [];
    lead_guid = [];
    tracker = record { lead_customer_phone = []; call = W.new_call; call_bridged = false };
  })

  abbrev pub tracked : {A : Type 0} → M (Tracker W.Call) A → M InboundSystem A
  tracked m = Desktop.tracking W (λ own. own.tracker) set_tracker m

  -- One round of `alive_worker`, which holds `_session_mutex`.
  unfoldable pub alive_round : Text → M InboundSystem (Unit {0})
  alive_round agent_guid = do
    session_guid ← gets (λ s. s.own.session_guid)
    lead_guid ← gets (λ s. s.own.lead_guid)
    if is_empty session_guid
        then pure tt
        else Desktop.speak W agent_guid session_guid lead_guid lead_guid

  unfoldable pub twilio_event : W.Http → M InboundSystem Bool
  twilio_event http = tracked (inbound_event W http)

  unfoldable pub twilio_request : W.Http → M InboundSystem Bool
  twilio_request http = tracked (inbound_request W http)

  unfoldable pub turn : Turn W.Http → M InboundSystem (Unit {0})
  unfolding alive_round twilio_event twilio_request
  turn alive_turn = Schedule.alive_step W (alive_round)
  turn (event_turn http) = do twilio_event http; pure tt
  turn (request_turn http response) = do twilio_request http; pure tt

  unfoldable pub prepare : M InboundSystem Staff
  prepare = do a ← Desktop.staff W turn; Run.gari_create_seed W turn; Run.spawn_alive W turn; pure a

  -- The call of the customer, made through the mockup of Twilio.
  unfoldable pub call_in : M InboundSystem (Unit {0})
  call_in = do
    tracked (modify (set_bridged W false))
    phone ← generate_random_phone W
    tracked (modify (λ t. record t { lead_customer_phone = phone }))
    ask W (λ e. (tt, W.request_call (phone ∷ W.bucket.inbound_phone ∷ []) e))

  -- The loop's body up to the call: it gives the session's guid.
  unfoldable pub desktop : Staff → M InboundSystem Text
  desktop a = do
    Desktop.break_if_stopped W turn
    Desktop.sleep_delta W turn
    Desktop.getvateams W turn a.agent_guid a.agent_vacenters
    Desktop.sleep_delta W turn
    Desktop.break_if_stopped W turn
    session_guid ← Desktop.login W turn set_session (λ own. own.session_guid) a.agent_guid
    Desktop.sleep_delta W turn
    Desktop.break_if_stopped W turn
    Desktop.change_status W turn AgentStatus.available a.agent_guid session_guid
    Desktop.sleep_delta W turn
    Desktop.break_if_stopped W turn
    Desktop.check_vateams W turn a.agent_guid session_guid a.agent_vateams
    branch_id ← get_branch_guid W
    Desktop.get_availability W turn branch_id
    Desktop.sleep_delta W turn
    Desktop.break_if_stopped W turn
    pure session_guid

  -- The rest of the body.
  unfoldable pub talk : ℕ → Staff → Text → M InboundSystem (Unit {0})
  unfolding lead_found
  talk fuel a session_guid = do
    call_in
    Desktop.wait_bridged W turn (λ own. own.call_bridged)
        (λ own. set_tracker (set_call W W.clear_call own.tracker) own) fuel
    json ←
        Desktop.open_session W turn (λ own. own.lead_customer_phone) (λ own. own.session_guid)
          a.agent_guid
    lead_guid ← Desktop.capture_lead W turn (set_lead (lead_found W json)) (λ own. own.lead_guid)
    Desktop.sleep_delta W turn
    Desktop.break_if_stopped W turn
    Desktop.set_result W turn (set_lead []) lead_guid
    Desktop.sleep_delta W turn
    Desktop.break_if_stopped W turn
    Desktop.logout W turn (set_session []) a.agent_guid session_guid

  unfoldable pub body : ℕ → Staff → M InboundSystem (Unit {0})
  body fuel a = do session_guid ← desktop a; talk fuel a session_guid

  -- `rounds` bounds the rounds of the loop, `fuel` those of a wait for a call.
  unfoldable pub sequence : ℕ → ℕ → InboundSystem → Outcome × InboundSystem
  sequence rounds fuel s = Run.run W turn prepare (body fuel) rounds s
