-- ===== src/Scheduled.antt =====
-- workflows/ScheduledWorkflow.h and ScheduledWorkflow.cpp: a customer asks to be called back, an
-- agent logs in, and the scheduled lead is launched.
pub mod Protocol
pub mod Obeys
pub mod Runs
use delfos.Prelude.{ℕ, false, [], ◌∷◌, Bool, ◌&&◌, Text, codes, is_empty, if◌then◌else◌}
use delfos.Barrier.{Barrier}
use delfos.World.{World, Turn, alive_turn, event_turn, request_turn}
use delfos.World.Requests.{AgentStatus, LeadAction, request_lead, webuser_request_lead}
use delfos.Monad.{M, pure, gets, modify, ◌>>=◌, ◌>>◌}
use delfos.Workflow.State.{System, ask, set_own}
use delfos.Workflow.Construct.{construct}
use delfos.Workflow.Buckets.{get_branch_guid}
use delfos.Workflow.Calls.{generate_random_phone}
use delfos.Workflow.Schedule
use delfos.Workflow.Run
use delfos.Workflow.Run.{Outcome}
use delfos.Twilio.{Tracker, set_bridged, set_call, lead_event}
use delfos.Desktop
use delfos.Desktop.{Staff, lead_found}

pub record ScheduledFields (C : Type 0) : Type 0 where
  pub session_guid : Text
  pub lead_guid : Text
  pub lead_session_guid : Text
  pub tracker : Tracker C
  pub open tracker use *

module _ (W : World) where
  abbrev pub Own : Type 0
  Own = ScheduledFields W.Call

  abbrev pub ScheduledSystem : Type 0
  ScheduledSystem = System W Own

  abbrev pub set_session : Text → Own → Own
  set_session guid own = record own { session_guid = guid }

  abbrev pub set_leads : Text → Text → Own → Own
  set_leads guid session_guid own = record own {
    lead_guid = guid;
    lead_session_guid = session_guid;
  }

  abbrev pub set_tracker : Tracker W.Call → Own → Own
  set_tracker t own = record own { tracker = t }

  -- The constructor.
  unfoldable pub new_workflow : ℕ → Barrier → W.State → ScheduledSystem
  unfolding construct
  new_workflow agent_position = construct W (codes "scheduled") agent_position (record {
    session_guid = [];
    lead_guid = [];
    lead_session_guid = [];
    tracker = record { lead_customer_phone = []; call = W.new_call; call_bridged = false };
  })

  abbrev pub tracked : {A : Type 0} → M (Tracker W.Call) A → M ScheduledSystem A
  tracked m = Desktop.tracking W (λ own. own.tracker) set_tracker m

  -- One round of `alive_worker`, which holds `_session_mutex`.
  unfoldable pub alive_round : Text → M ScheduledSystem (Unit {0})
  alive_round agent_guid = do
    session_guid ← gets (λ s. s.own.session_guid)
    lead_guid ← gets (λ s. s.own.lead_guid)
    lead_session_guid ← gets (λ s. s.own.lead_session_guid)
    if is_empty session_guid
        then pure tt
        else Desktop.speak W agent_guid session_guid lead_guid lead_session_guid

  unfoldable pub twilio_event : W.Http → M ScheduledSystem Bool
  twilio_event http = tracked (lead_event W http)

  -- `twilio_request` is that of `Workflow`, which does nothing.
  unfoldable pub turn : Turn W.Http → M ScheduledSystem (Unit {0})
  unfolding alive_round twilio_event
  turn alive_turn = Schedule.alive_step W (alive_round)
  turn (event_turn http) = do twilio_event http; pure tt
  turn (request_turn http response) = pure tt

  -- The branch's guid is kept beside what the other workflows keep.
  unfoldable pub prepare : M ScheduledSystem (Staff × Text)
  prepare = do
    a ← Desktop.staff W turn
    branch_id ← get_branch_guid W
    Run.gari_create_seed W turn
    Run.spawn_alive W turn
    pure (a, branch_id)

  -- "Schedule Lead", for now.
  unfoldable pub schedule_lead : Text → M ScheduledSystem (Unit {0})
  schedule_lead branch_id = do
    metadata ← ask W W.new_guid
    phone ← generate_random_phone W
    tracked (modify (λ t. record t { lead_customer_phone = phone }))
    scheduled_datetime ← ask W W.now
    seed ← gets (λ s. s.seed_guid)
    Desktop.traced_or_break W turn webuser_request_lead (
        request_lead (record {
          action = LeadAction.call_me_back;
          branch = branch_id;
          phone = phone;
          country = codes "ES";
          name = codes "my-name";
          email = codes "user@mail.com";
          seed = seed;
          scheduled = scheduled_datetime;
          metadata = metadata;
        }))
    pure tt

  -- The guid of the lead's session in the answer to `open_session`; empty if there is none.
  unfoldable pub lead_session_found : W.Json → Text
  lead_session_found json =
      let answer = W.member json W.keys.lead in
      if W.has_member json W.keys.lead
        && W.is_object answer
        && W.has_member answer W.keys.lead_session
        && W.is_string (W.member answer W.keys.lead_session)
      then W.get_string (W.member answer W.keys.lead_session)
      else []

  -- The loop's body up to the wait: it gives the session's guid.
  unfoldable pub desktop : Staff → Text → M ScheduledSystem Text
  desktop a branch_id = do
    Desktop.break_if_stopped W turn
    Desktop.sleep_delta W turn
    schedule_lead branch_id
    Desktop.sleep_delta W turn
    Desktop.break_if_stopped W turn
    Desktop.getvateams W turn a.agent_guid a.agent_vacenters
    Desktop.sleep_delta W turn
    Desktop.break_if_stopped W turn
    session_guid ← Desktop.login W turn set_session (λ own. own.session_guid) a.agent_guid
    Desktop.sleep_delta W turn
    Desktop.break_if_stopped W turn
    Desktop.check_vateams W turn a.agent_guid session_guid a.agent_vateams
    Desktop.sleep_delta W turn
    Desktop.break_if_stopped W turn
    Desktop.change_status W turn AgentStatus.busy a.agent_guid session_guid
    Desktop.sleep_delta W turn
    Desktop.break_if_stopped W turn
    Desktop.change_status W turn AgentStatus.available a.agent_guid session_guid
    pure session_guid

  -- The rest of the body.
  unfoldable pub talk : ℕ → Staff → Text → M ScheduledSystem (Unit {0})
  unfolding lead_found lead_session_found
  talk fuel a session_guid = do
    tracked (modify (set_bridged W false))
    Desktop.wait_bridged W turn (λ own. own.call_bridged)
        (λ own. set_tracker (set_call W W.clear_call own.tracker) own) fuel
    json ←
        Desktop.open_session W turn (λ own. own.lead_customer_phone) (λ own. own.session_guid)
          a.agent_guid
    lead_guid ←
        Desktop.capture_lead W turn (set_leads (lead_found W json) (lead_session_found json))
          (λ own. own.lead_guid)
    Desktop.sleep_delta W turn
    Desktop.break_if_stopped W turn
    Desktop.set_result W turn (set_leads [] []) lead_guid
    Desktop.sleep_delta W turn
    Desktop.break_if_stopped W turn
    Desktop.logout W turn (set_session []) a.agent_guid session_guid

  unfoldable pub body : ℕ → Staff × Text → M ScheduledSystem (Unit {0})
  body fuel (a, branch_id) = do session_guid ← desktop a branch_id; talk fuel a session_guid

  -- `rounds` bounds the rounds of the loop, `fuel` those of a wait for a call.
  unfoldable pub sequence : ℕ → ℕ → ScheduledSystem → Outcome × ScheduledSystem
  sequence rounds fuel s = Run.run W turn prepare (body fuel) rounds s
