-- ===== src/Desktop.antt =====
-- The requests of an agent's desktop, and the wait for a call, which InboundWorkflow.cpp,
-- IVWorkflow.cpp, ScheduledWorkflow.cpp and ManyWorkflow.cpp write out in the same words. `X` are the
-- fields of the derived class; a field that the code reads or sets is given by functions.
pub mod Steps
pub mod Calls
pub mod Phases
pub mod Speaks
use delfos.Prelude.{
  ℕ, zero, suc, ◌+◌, ◌*◌, Bool, true, false, not, ◌&&◌, ◌||◌, List, [], ◌∷◌, Text, ltb, is_empty,
  if◌then◌else◌,
}
use delfos.Trace.{ns_per_ms}
use delfos.World.{World, Turn}
use delfos.World.Requests
use delfos.World.Requests.{
  Event, Request, AgentStatus, desktop_getvateams_agent, desktop_login_agent,
  desktop_changestatus_agent, desktop_check_vateam, webuser_get_availability, desktop_open_session,
  desktop_set_result, desktop_logout_agent,
}
use delfos.Monad.{M, broke, hung, pure, leave, gets, modify, leave_if, when, ◌>>=◌, ◌>>◌}
use delfos.Workflow.State.{System, ask, set_fields, set_own}
use delfos.Workflow.Buckets.{get_agent_guid, get_vateam_guids, get_vacenter_guids}
use delfos.Workflow.Calls.{alive_lm, alive_gari}
use delfos.Workflow.Schedule
use delfos.Workflow.Run
use delfos.Cmn.Sequence.{polling_check_period, polling_check_max, workflow_lead_result}
use delfos.Twilio.{Tracker}
use delfos.Cmn.Protocol.{on}

-- What the code before the loop keeps for it.
pub record Staff : Type 0 where
  pub agent_guid : Text
  pub agent_vateams : List Text
  pub agent_vacenters : List Text

module _ (W : World) where
  -- The lead's guid in the answer to `open_session`; empty if there is none.
  unfoldable pub lead_found : W.Json → Text
  lead_found json =
      let answer = W.member json W.keys.lead in
      if W.has_member json W.keys.lead
        && W.is_object answer
        && W.has_member answer W.keys.lead_guid
        && W.is_string (W.member answer W.keys.lead_guid)
      then W.get_string (W.member answer W.keys.lead_guid)
      else []

  -- The session's guid in the answer of a login leads to `q`; without one it is `fail`.
  abbrev pub logged_by : {A : Type 0} → (Text → A) → A → W.Json → A
  logged_by q fail json =
      let v = W.member json W.keys.session_id in
      on (W.has_member json W.keys.session_id && W.is_string v) (q (W.get_string v)) fail

  -- Code over the call's fields alone.
  unfoldable pub tracking :
      {X A : Type 0}
      → (X → Tracker W.Call)
      → (Tracker W.Call → X → X)
      → M (Tracker W.Call) A
      → M (System W X) A
  tracking tracker set_tracker m s =
      let (r, t) = m (tracker s.own) in (r, record s { own = set_tracker t s.own })

  -- What a round of the alive thread says for a session: `room` names the room that is read.
  unfoldable pub speak :
      {X : Type 0} → (agent_guid session_guid lead_guid room : Text) → M (System W X) (Unit {0})
  speak agent_guid session_guid lead_guid room = do
    alive_lm W agent_guid session_guid lead_guid
    when (not (is_empty room)) (alive_gari W room)

module _ (W : World) {X : Type 0} (turn : Turn W.Http → M (System W X) (Unit {0})) where
  abbrev pub break_if_stopped : M (System W X) (Unit {0})
  break_if_stopped = Schedule.break_if_stopped W turn

  abbrev pub sleep_delta : M (System W X) (Unit {0})
  sleep_delta = Schedule.sleep_delta W turn

  -- Taking `_session_mutex` waits for the round of the alive thread.
  abbrev pub lock : M (System W X) (Unit {0})
  lock = Schedule.schedule W turn

  abbrev pub traced_or_break : Event → Request → M (System W X) W.Json
  traced_or_break = Schedule.traced_or_break W turn

  unfoldable pub staff : M (System W X) Staff
  staff = do
    Run.increment_barrier W turn
    position ← gets (λ s. s.agent_position)
    agent_guid ← get_agent_guid W position
    agent_vateams ← get_vateam_guids W
    agent_vacenters ← get_vacenter_guids W
    pure (record {
      agent_guid = agent_guid;
      agent_vateams = agent_vateams;
      agent_vacenters = agent_vacenters;
    })

  -- A failure leaves this loop only.
  unfoldable pub getvateams : Text → List Text → M (System W X) (Unit {0})
  getvateams agent_guid [] = pure tt
  getvateams agent_guid (vacenter ∷ rest) =
      let more = getvateams agent_guid rest in
      Schedule.traced W turn desktop_getvateams_agent (Requests.getvateams agent_guid vacenter)
      >>= λ answer. elim answer.0 [ true ↦ more | false ↦ pure tt ]

  unfoldable pub login : (Text → X → X) → (X → Text) → Text → M (System W X) Text
  login set_session session agent_guid = do
    json ← traced_or_break desktop_login_agent (Requests.login agent_guid)
    let key = W.keys.session_id
    leave_if (not (W.has_member json key) || not (W.is_string (W.member json key))) broke
    lock
    modify (set_own W (set_session (W.get_string (W.member json key))))
    gets (λ s. session s.own)

  unfoldable pub change_status : AgentStatus → Text → Text → M (System W X) (Unit {0})
  change_status status agent_guid session_guid = do
    traced_or_break desktop_changestatus_agent
        (Requests.change_status agent_guid session_guid status)
    pure tt

  unfoldable pub check_vateams : Text → Text → List Text → M (System W X) (Unit {0})
  check_vateams agent_guid session_guid [] = pure tt
  check_vateams agent_guid session_guid (vateam ∷ rest) =
      let more = check_vateams agent_guid session_guid rest in
      traced_or_break desktop_check_vateam (Requests.check_vateam agent_guid session_guid vateam)
      >>= λ _. more

  unfoldable pub get_availability : Text → M (System W X) (Unit {0})
  get_availability branch_id = do
    traced_or_break webuser_get_availability (Requests.get_availability branch_id)
    pure tt

  -- The polling loop, from the time `init_time` on: others may go on before each look at the flag.
  -- Fuel counts its rounds.
  unfoldable pub poll : (X → Bool) → ℕ → ℕ → M (System W X) (Unit {0})
  poll call_bridged init_time zero = leave hung
  poll call_bridged init_time (suc fuel) = do
    Schedule.schedule W turn
    bridged ← gets (λ s. call_bridged s.own)
    elim bridged [
      | true ↦ pure tt
      | false ↦ do
        now ← ask W W.now
        elim (ltb (init_time + polling_check_max * ns_per_ms) now) [
          | true ↦ pure tt
          | false ↦ do
            Schedule.sleep_for W turn polling_check_period
            poll call_bridged init_time fuel
        ]
    ]

  -- Wait for the call to be bridged; `clear_call` is `_call.clear()`.
  unfoldable pub wait_bridged : (X → Bool) → (X → X) → ℕ → M (System W X) (Unit {0})
  wait_bridged call_bridged clear_call fuel = do
    init_time ← ask W W.now
    poll call_bridged init_time fuel
    bridged ← gets (λ s. call_bridged s.own)
    leave_if (not bridged) broke
    modify (set_own W clear_call)

  unfoldable pub open_session : (X → Text) → (X → Text) → Text → M (System W X) W.Json
  open_session lead_customer_phone session agent_guid = do
    phone ← gets (λ s. lead_customer_phone s.own)
    session_guid ← gets (λ s. session s.own)
    traced_or_break desktop_open_session (Requests.open_session phone agent_guid session_guid)

  -- "Capture lead guid", under the lock: `store` puts what was found in the fields.
  unfoldable pub capture_lead : (X → X) → (X → Text) → M (System W X) Text
  capture_lead store lead = do
    lock
    modify (set_own W store)
    lead_guid ← gets (λ s. lead s.own)
    leave_if (is_empty lead_guid) broke
    pure lead_guid

  -- `clear` is what is cleared under the lock, but for `_gari_user_guid`.
  unfoldable pub set_result : (X → X) → Text → M (System W X) (Unit {0})
  set_result clear lead_guid = do
    lock
    modify (set_own W clear)
    modify (set_fields W (λ f. record f { gari_user_guid = 0 }))
    traced_or_break desktop_set_result (Requests.set_result lead_guid workflow_lead_result)
    pure tt

  unfoldable pub logout : (X → X) → Text → Text → M (System W X) (Unit {0})
  logout clear agent_guid session_guid = do
    lock
    modify (set_own W clear)
    traced_or_break desktop_logout_agent (Requests.logout agent_guid session_guid)
    pure tt
