-- ===== src/Cmn/Sequence.antt =====
-- `CMNWorkflow::sequence`.
use delfos.Prelude.{ℕ, true, false, not, ◌||◌, List, [], ◌∷◌, Text}
use delfos.World.{World}
use delfos.World.Requests
use delfos.World.Requests.{
  Event, AgentStatus, Lead, desktop_getvateams_agent, desktop_login_agent,
  desktop_changestatus_agent, desktop_check_vateam, webuser_get_availability, webuser_request_lead,
  desktop_open_session, desktop_set_result, desktop_logout_agent,
}
use delfos.Monad.{M, broke, pure, gets, modify, leave_if, ◌>>=◌, ◌>>◌}
use delfos.Workflow.Buckets.{get_agent_guid, get_vateam_guids, get_vacenter_guids, get_branch_guid}
use delfos.Workflow.Schedule
use delfos.Workflow.Run
use delfos.Workflow.Run.{Outcome}
use delfos.Cmn.State.{CmnSystem, set_session}
use delfos.Cmn.Alive.{turn}

abbrev pub polling_check_period : ℕ
polling_check_period = 100

abbrev pub polling_check_max : ℕ
polling_check_max = 20000

abbrev pub workflow_lead_result : ℕ
workflow_lead_result = 1007

-- What the code before the loop keeps for it.
pub record Agent : Type 0 where
  pub agent_guid : Text
  pub agent_vateams : List Text
  pub agent_vacenters : List Text

module _ (W : World) where
  abbrev pub break_if_stopped : M (CmnSystem W) (Unit {0})
  break_if_stopped = Schedule.break_if_stopped W (turn W)

  abbrev pub sleep_delta : M (CmnSystem W) (Unit {0})
  sleep_delta = Schedule.sleep_delta W (turn W)

  abbrev pub traced_or_break : Event → Requests.Request → M (CmnSystem W) W.Json
  traced_or_break = Schedule.traced_or_break W (turn W)

  -- Taking `_session_mutex` waits for the round of the alive thread.
  abbrev pub lock : M (CmnSystem W) (Unit {0})
  lock = Schedule.schedule W (turn W)

  unfoldable pub prepare : M (CmnSystem W) Agent
  prepare = do
    Run.increment_barrier W (turn W)
    position ← gets (λ s. s.agent_position)
    agent_guid ← get_agent_guid W position
    agent_vateams ← get_vateam_guids W
    agent_vacenters ← get_vacenter_guids W
    Run.gari_create_seed W (turn W)
    Run.spawn_alive W (turn W)
    pure (record {
      agent_guid = agent_guid;
      agent_vateams = agent_vateams;
      agent_vacenters = agent_vacenters;
    })

  -- A failure leaves this loop only.
  unfoldable pub getvateams : Text → List Text → M (CmnSystem W) (Unit {0})
  getvateams agent_guid [] = pure tt
  getvateams agent_guid (vacenter ∷ rest) =
      let more = getvateams agent_guid rest in
      Schedule.traced W (turn W) desktop_getvateams_agent (Requests.getvateams agent_guid vacenter)
      >>= λ answer. elim answer.0 [ true ↦ more | false ↦ pure tt ]

  unfoldable pub login : Text → M (CmnSystem W) Text
  login agent_guid = do
    json ← traced_or_break desktop_login_agent (Requests.login agent_guid)
    let key = W.keys.session_id
    leave_if (not (W.has_member json key) || not (W.is_string (W.member json key))) broke
    lock
    modify (set_session W (W.get_string (W.member json key)))
    gets (λ s. s.own.session_guid)

  unfoldable pub change_status : Text → Text → M (CmnSystem W) (Unit {0})
  change_status agent_guid session_guid = do
    traced_or_break desktop_changestatus_agent
        (Requests.change_status agent_guid session_guid AgentStatus.available)
    pure tt

  unfoldable pub check_vateams : Text → Text → List Text → M (CmnSystem W) (Unit {0})
  check_vateams agent_guid session_guid [] = pure tt
  check_vateams agent_guid session_guid (vateam ∷ rest) =
      let more = check_vateams agent_guid session_guid rest in
      traced_or_break desktop_check_vateam (Requests.check_vateam agent_guid session_guid vateam)
      >>= λ _. more

  unfoldable pub get_availability : M (CmnSystem W) Text
  get_availability = do
    branch_id ← get_branch_guid W
    traced_or_break webuser_get_availability (Requests.get_availability branch_id)
    pure branch_id
