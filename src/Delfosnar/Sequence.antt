-- ===== src/Delfosnar/Sequence.antt =====
-- `delfosnarWorkflow::sequence`.
use delfos.Prelude.{ℕ, Text}
use delfos.World.{World}
use delfos.World.Requests.{AgentStatus, presenter, viewer, desktop_close, close}
use delfos.Monad.{M, pure, gets, ◌>>=◌, ◌>>◌}
use delfos.Workflow.Buckets.{get_branchgroup_delfosnar_guid, get_branch_delfosnar_guid}
use delfos.Workflow.Run
use delfos.Workflow.Run.{Outcome}
use delfos.Desktop
use delfos.Desktop.{Staff}
use delfos.Delfosnar.State.{set_session, cleared, DelfosnarSystem, turn, delfosnar_update_room}
use delfos.Delfosnar.Room.{alive_delfosnar, create, gari_create_user, updates}

-- What the code before the loop keeps for it.
pub record Host : Type 0 where
  pub staff : Staff
  pub open staff use *
  pub branchgroup_guid : Text
  pub branch_guid : Text

module _ (W : World) where
  unfoldable pub prepare : M (DelfosnarSystem W) Host
  prepare = do
    staff ← Desktop.staff W (turn W)
    position ← gets (λ s. s.agent_position)
    branchgroup_guid ← get_branchgroup_delfosnar_guid W position
    branch_guid ← get_branch_delfosnar_guid W position
    Run.gari_create_seed W (turn W)
    Run.spawn_alive W (turn W)
    pure (record { staff = staff; branchgroup_guid = branchgroup_guid; branch_guid = branch_guid })

  -- The loop's body up to the alive of the delfosnar: it gives the session's guid.
  unfoldable pub desktop : Host → M (DelfosnarSystem W) Text
  desktop a = do
    Desktop.break_if_stopped W (turn W)
    Desktop.sleep_delta W (turn W)
    Desktop.getvateams W (turn W) a.agent_guid a.agent_vacenters
    Desktop.sleep_delta W (turn W)
    Desktop.break_if_stopped W (turn W)
    session_guid ← Desktop.login W (turn W) set_session (λ own. own.session_guid) a.agent_guid
    Desktop.sleep_delta W (turn W)
    Desktop.break_if_stopped W (turn W)
    Desktop.change_status W (turn W) AgentStatus.available a.agent_guid session_guid
    Desktop.sleep_delta W (turn W)
    Desktop.break_if_stopped W (turn W)
    Desktop.check_vateams W (turn W) a.agent_guid session_guid a.agent_vateams
    Desktop.get_availability W (turn W) a.branch_guid
    Desktop.sleep_delta W (turn W)
    Desktop.break_if_stopped W (turn W)
    pure session_guid

  -- The rest of the body.
  unfoldable pub hold : Host → Text → M (DelfosnarSystem W) (Unit {0})
  hold a session_guid = do
    alive_delfosnar W a.agent_guid a.branchgroup_guid
    Desktop.sleep_delta W (turn W)
    Desktop.break_if_stopped W (turn W)
    create W a.branchgroup_guid a.agent_guid session_guid
    Desktop.sleep_delta W (turn W)
    Desktop.break_if_stopped W (turn W)
    gari_create_user W presenter
    Desktop.sleep_delta W (turn W)
    Desktop.break_if_stopped W (turn W)
    gari_create_user W viewer
    Desktop.sleep_delta W (turn W)
    Desktop.break_if_stopped W (turn W)
    updates W delfosnar_update_room
    delfosnar_guid ← gets (λ s. s.own.delfosnar_guid)
    Desktop.traced_or_break W (turn W) desktop_close
        (close delfosnar_guid a.agent_guid session_guid)
    Desktop.logout W (turn W) cleared a.agent_guid session_guid

  unfoldable pub body : Host → M (DelfosnarSystem W) (Unit {0})
  body a = do session_guid ← desktop a; hold a session_guid

  -- Fuel counts the rounds of the loop.
  unfoldable pub sequence : ℕ → DelfosnarSystem W → Outcome × DelfosnarSystem W
  sequence fuel s = Run.run W (turn W) prepare body fuel s
