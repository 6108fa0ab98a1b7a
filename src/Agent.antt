-- ===== src/Agent.antt =====
-- workflows/AgentWorkflow.h and AgentWorkflow.cpp: an agent who logs in, reports as available,
-- asks for the teams and logs out, again and again.
pub mod Protocol
pub mod Obeys
pub mod Steps
pub mod Rounds
use delfos.Prelude.{
  ℕ, Bool, true, false, not, ◌||◌, List, [], ◌∷◌, Text, codes, is_empty, if◌then◌else◌,
}
use delfos.Barrier.{Barrier}
use delfos.Workflow.Construct.{construct}
use delfos.World.{World, Turn, alive_turn, event_turn, request_turn}
use delfos.World.Requests
use delfos.World.Requests.{
  Event, AgentStatus, desktop_getvateams_agent, desktop_login_agent, desktop_changestatus_agent,
  desktop_logout_agent,
}
use delfos.Monad.{M, broke, pure, gets, modify, leave_if, ◌>>=◌, ◌>>◌}
use delfos.Workflow.State.{System}
use delfos.Workflow.Buckets.{get_agent_guid, get_vateam_guids, get_vacenter_guids}
use delfos.Workflow.Calls.{alive_lm}
use delfos.Workflow.Schedule
use delfos.Workflow.Run
use delfos.Workflow.Run.{Outcome}

-- The fields of `AgentWorkflow`. No code touches `lead_guid`.
pub record AgentFields : Type 0 where
  pub session_guid : Text
  pub lead_guid : Text

-- What the code before the loop keeps for it.
pub record Desk : Type 0 where
  pub agent_guid : Text
  pub agent_vateams : List Text
  pub agent_vacenters : List Text

module _ (W : World) where
  abbrev pub AgentSystem : Type 0
  AgentSystem = System W AgentFields

  -- The constructor.
  unfoldable pub new_workflow : ℕ → Barrier → W.State → AgentSystem
  unfolding construct
  new_workflow agent_position =
      construct W (codes "agent") agent_position (record { session_guid = []; lead_guid = [] })

  unfoldable pub set_session : Text → AgentSystem → AgentSystem
  set_session guid s = record s { own = record s.own { session_guid = guid } }

  -- One round of `alive_worker`, which holds `_session_mutex`; its `lead_guid_local` stays empty.
  unfoldable pub alive_round : Text → M AgentSystem (Unit {0})
  alive_round agent_guid = do
    session_guid ← gets (λ s. s.own.session_guid)
    if is_empty session_guid then pure tt else alive_lm W agent_guid session_guid []

  -- `twilio_event` does nothing here.
  unfoldable pub turn : Turn W.Http → M AgentSystem (Unit {0})
  unfolding alive_round
  turn alive_turn = Schedule.alive_step W (alive_round)
  turn (event_turn http) = pure tt
  turn (request_turn http response) = pure tt

  abbrev pub break_if_stopped : M AgentSystem (Unit {0})
  break_if_stopped = Schedule.break_if_stopped W turn

  abbrev pub sleep_delta : M AgentSystem (Unit {0})
  sleep_delta = Schedule.sleep_delta W turn

  abbrev pub traced_or_break : Event → Requests.Request → M AgentSystem W.Json
  traced_or_break = Schedule.traced_or_break W turn

  -- Taking `_session_mutex` waits for the round of the alive thread.
  abbrev pub lock : M AgentSystem (Unit {0})
  lock = Schedule.schedule W turn

  unfoldable pub prepare : M AgentSystem Desk
  prepare = do
    Run.increment_barrier W turn
    position ← gets (λ s. s.agent_position)
    agent_guid ← get_agent_guid W position
    agent_vateams ← get_vateam_guids W
    agent_vacenters ← get_vacenter_guids W
    Run.spawn_alive W turn
    pure (record {
      agent_guid = agent_guid;
      agent_vateams = agent_vateams;
      agent_vacenters = agent_vacenters;
    })

  -- A failure leaves this loop only.
  unfoldable pub getvateams : Text → List Text → M AgentSystem (Unit {0})
  getvateams agent_guid [] = pure tt
  getvateams agent_guid (vacenter ∷ rest) =
      let more = getvateams agent_guid rest in
      Schedule.traced W turn desktop_getvateams_agent (Requests.getvateams agent_guid vacenter)
      >>= λ answer. elim answer.0 [ true ↦ more | false ↦ pure tt ]

  unfoldable pub login : Text → M AgentSystem Text
  login agent_guid = do
    json ← traced_or_break desktop_login_agent (Requests.login agent_guid)
    let key = W.keys.session_id
    leave_if (not (W.has_member json key) || not (W.is_string (W.member json key))) broke
    lock
    modify (set_session (W.get_string (W.member json key)))
    gets (λ s. s.own.session_guid)

  unfoldable pub change_status : Text → Text → M AgentSystem (Unit {0})
  change_status agent_guid session_guid = do
    traced_or_break desktop_changestatus_agent
        (Requests.change_status agent_guid session_guid AgentStatus.available)
    pure tt

  -- The trace of each check names the command of a change of status.
  unfoldable pub check_vateams : Text → Text → List Text → M AgentSystem (Unit {0})
  check_vateams agent_guid session_guid [] = pure tt
  check_vateams agent_guid session_guid (vateam ∷ rest) =
      let more = check_vateams agent_guid session_guid rest in
      traced_or_break desktop_changestatus_agent
        (Requests.check_vateam agent_guid session_guid vateam)
      >>= λ _. more

  unfoldable pub logout : Text → Text → M AgentSystem (Unit {0})
  logout agent_guid session_guid = do
    lock
    modify (set_session [])
    traced_or_break desktop_logout_agent (Requests.logout agent_guid session_guid)
    pure tt

  unfoldable pub body : Desk → M AgentSystem (Unit {0})
  body d = do
    break_if_stopped
    sleep_delta
    getvateams d.agent_guid d.agent_vacenters
    sleep_delta
    break_if_stopped
    session_guid ← login d.agent_guid
    sleep_delta
    break_if_stopped
    change_status d.agent_guid session_guid
    sleep_delta
    break_if_stopped
    check_vateams d.agent_guid session_guid d.agent_vateams
    sleep_delta
    break_if_stopped
    logout d.agent_guid session_guid

  -- Fuel counts the rounds of the loop.
  unfoldable pub sequence : ℕ → AgentSystem → Outcome × AgentSystem
  sequence fuel s = Run.run W turn prepare body fuel s
