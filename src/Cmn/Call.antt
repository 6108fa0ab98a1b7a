-- ===== src/Cmn/Call.antt =====
-- `CMNWorkflow::sequence` from the request of a lead on, and the whole of it.
use delfos.Prelude.{
  ℕ, zero, suc, ◌+◌, ◌*◌, true, false, not, ◌&&◌, [], Text, codes, ltb, is_empty, if◌then◌else◌,
}
use delfos.Trace.{ns_per_ms}
use delfos.World.{World}
use delfos.World.Requests
use delfos.World.Requests.{
  LeadAction, webuser_request_lead, desktop_open_session, desktop_set_result, desktop_logout_agent,
}
use delfos.Monad.{M, broke, hung, pure, leave, gets, modify, leave_if, ◌>>=◌, ◌>>◌}
use delfos.Workflow.State.{ask, set_fields}
use delfos.Workflow.Calls.{generate_random_phone}
use delfos.Workflow.Schedule
use delfos.Workflow.Run
use delfos.Workflow.Run.{Outcome}
use delfos.Twilio.{Tracker, set_bridged, set_call}
use delfos.Cmn.State.{CmnSystem, set_session, set_lead, tracking}
use delfos.Cmn.Alive.{turn}
use delfos.Cmn.Sequence.{
  Agent, polling_check_period, polling_check_max, workflow_lead_result, prepare, getvateams, login,
  change_status, check_vateams, get_availability, break_if_stopped, sleep_delta, traced_or_break,
  lock,
}

module _ (W : World) where
  set_phone : Text → Tracker W.Call → Tracker W.Call
  set_phone phone t = record t { lead_customer_phone = phone }

  abbrev modify_tracker : (Tracker W.Call → Tracker W.Call) → M (CmnSystem W) (Unit {0})
  modify_tracker f = tracking W (modify f)

  -- The new lead's guid in the answer to `request_lead`; empty if there is none.
  unfoldable pub lead_in : W.Json → Text
  lead_in json =
      let answer = W.member json W.keys.data_tag in
      if W.has_member json W.keys.data_tag
        && W.is_object answer
        && W.has_member answer W.keys.lead
        && W.is_string (W.member answer W.keys.lead)
      then W.get_string (W.member answer W.keys.lead)
      else []

  -- "Capture lead guid", under the lock.
  unfoldable pub capture_lead : Text → M (CmnSystem W) Text
  capture_lead found = do
    lock W
    modify (set_lead W found)
    lead_guid ← gets (λ s. s.own.lead_guid)
    leave_if (is_empty lead_guid) broke
    pure lead_guid

  unfoldable pub request_lead : Text → M (CmnSystem W) Text
  unfolding set_phone lead_in
  request_lead branch_id = do
    modify_tracker (set_bridged W false)
    metadata ← ask W W.new_guid
    phone ← generate_random_phone W
    modify_tracker (set_phone phone)
    seed ← gets (λ s. s.seed_guid)
    json ← traced_or_break W webuser_request_lead (
        Requests.request_lead (record {
          action = LeadAction.call_me_now;
          branch = branch_id;
          phone = phone;
          country = codes "ES";
          name = codes "my-name";
          email = codes "user@mail.com";
          seed = seed;
          scheduled = 0;
          metadata = metadata;
        }))
    capture_lead (lead_in json)

  -- The polling loop, from the time `init_time` on: others may go on before each look at the flag.
  -- Fuel counts its rounds.
  unfoldable pub poll : ℕ → ℕ → M (CmnSystem W) (Unit {0})
  poll init_time zero = leave hung
  poll init_time (suc fuel) = do
    Schedule.schedule W (turn W)
    bridged ← gets (λ s. s.own.call_bridged)
    elim bridged [
      | true ↦ pure tt
      | false ↦ do
        now ← ask W W.now
        elim (ltb (init_time + polling_check_max * ns_per_ms) now) [
          | true ↦ pure tt
          | false ↦ do Schedule.sleep_for W (turn W) polling_check_period; poll init_time fuel
        ]
    ]

  -- Wait for the call to be bridged.
  unfoldable pub wait_bridged : ℕ → M (CmnSystem W) (Unit {0})
  wait_bridged fuel = do
    init_time ← ask W W.now
    poll init_time fuel
    bridged ← gets (λ s. s.own.call_bridged)
    leave_if (not bridged) broke
    modify_tracker (set_call W W.clear_call)

  unfoldable pub open_session : Text → M (CmnSystem W) (Unit {0})
  open_session agent_guid = do
    phone ← gets (λ s. s.own.lead_customer_phone)
    session_guid ← gets (λ s. s.own.session_guid)
    traced_or_break W desktop_open_session (Requests.open_session phone agent_guid session_guid)
    pure tt

  unfoldable pub set_result : Text → M (CmnSystem W) (Unit {0})
  set_result lead_guid = do
    lock W
    modify (set_lead W [])
    modify (set_fields W (λ f. record f { gari_user_guid = 0 }))
    traced_or_break W desktop_set_result (Requests.set_result lead_guid workflow_lead_result)
    pure tt

  unfoldable pub logout : Text → Text → M (CmnSystem W) (Unit {0})
  logout agent_guid session_guid = do
    lock W
    modify (set_session W [])
    traced_or_break W desktop_logout_agent (Requests.logout agent_guid session_guid)
    pure tt

  -- The loop's body up to the request of a lead: it gives the session's guid and the branch's.
  unfoldable pub desktop : Agent → M (CmnSystem W) (Text × Text)
  desktop a = do
    break_if_stopped W
    sleep_delta W
    getvateams W a.agent_guid a.agent_vacenters
    sleep_delta W
    break_if_stopped W
    session_guid ← login W a.agent_guid
    sleep_delta W
    break_if_stopped W
    change_status W a.agent_guid session_guid
    sleep_delta W
    break_if_stopped W
    check_vateams W a.agent_guid session_guid a.agent_vateams
    branch_id ← get_availability W
    sleep_delta W
    break_if_stopped W
    pure (session_guid, branch_id)

  -- The rest of the body, which ends by `break`: "Single iteration enabled".
  unfoldable pub talk : ℕ → Agent → Text × Text → M (CmnSystem W) (Unit {0})
  talk fuel a (session_guid, branch_id) = do
    lead_guid ← request_lead branch_id
    sleep_delta W
    break_if_stopped W
    wait_bridged fuel
    open_session a.agent_guid
    sleep_delta W
    break_if_stopped W
    Run.gari_update_room W (turn W) lead_guid
    sleep_delta W
    break_if_stopped W
    set_result lead_guid
    sleep_delta W
    break_if_stopped W
    logout a.agent_guid session_guid
    leave broke

  unfoldable pub body : ℕ → Agent → M (CmnSystem W) (Unit {0})
  body fuel a = do guids ← desktop a; talk fuel a guids

  unfoldable pub sequence : ℕ → CmnSystem W → Outcome × CmnSystem W
  sequence fuel s = Run.run W (turn W) (prepare W) (body fuel) 1 s
