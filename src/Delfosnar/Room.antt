-- ===== src/Delfosnar/Room.antt =====
-- What `delfosnarWorkflow::sequence` does with a delfosnar and its room.
use delfos.Prelude.{ℕ, zero, suc, Bool, not, ◌&&◌, Text, if◌then◌else◌}
use delfos.World.{World}
use delfos.World.Requests.{
  RoomUser, desktop_alive, desktop_create, read_room, update_room, alive_branchgroup,
  create_delfosnar, read_session, update,
}
use delfos.Monad.{M, broke, threw, pure, gets, modify, leave_if, when, ◌>>=◌, ◌>>◌}
use delfos.Workflow.State.{set_own}
use delfos.Workflow.Calls.{workflow_chatfile_pod}
use delfos.Workflow.Schedule
use delfos.Desktop
use delfos.Desktop.{Staff}
use delfos.Delfosnar.State.{
  Own, set_delfosnar, set_user, DelfosnarSystem, turn, delfosnar_title, delfosnar_description,
}

module _ (W : World) where
  -- "delfosnar Alive", which throws on failure.
  unfoldable pub alive_delfosnar : Text → Text → M (DelfosnarSystem W) (Unit {0})
  alive_delfosnar agent_guid branchgroup_guid = do
    session_guid ← gets (λ s. s.own.session_guid)
    answer ←
        Schedule.traced W (turn W) desktop_alive
          (alive_branchgroup agent_guid session_guid branchgroup_guid)
    leave_if (not answer.0) threw

  -- The guid in the answer to `request_create_delfosnar`; without one, the field stays.
  unfoldable pub delfosnar_found : W.Json → Text → Text
  delfosnar_found json delfosnar_guid =
      let answer = W.member json W.keys.delfosnar in
      if W.has_member json W.keys.delfosnar
        && W.is_object answer
        && W.has_member answer W.keys.delfosnar_guid
        && W.is_string (W.member answer W.keys.delfosnar_guid)
      then W.get_string (W.member answer W.keys.delfosnar_guid)
      else delfosnar_guid

  -- "Create delfosnar": the field is set without the lock.
  unfoldable pub create : Text → Text → Text → M (DelfosnarSystem W) (Unit {0})
  unfolding delfosnar_found
  create branchgroup_guid agent_guid session_guid = do
    seed ← gets (λ s. s.seed_guid)
    json ← Desktop.traced_or_break W (turn W) desktop_create (
        create_delfosnar branchgroup_guid delfosnar_title delfosnar_description seed agent_guid
          session_guid)
    modify (set_own W (λ own. set_delfosnar (delfosnar_found json own.delfosnar_guid) own))

  -- The answer's user id, if it has one.
  unfoldable pub store_user : RoomUser → W.Json → M (DelfosnarSystem W) (Unit {0})
  store_user room_user_type json =
      let key = W.keys.room_user_id in
      when (W.has_member json key && W.is_uint (W.member json key))
        (modify (set_own W (set_user room_user_type (W.get_uint (W.member json key)))))

  -- The callers do not look at what it returns.
  unfoldable pub gari_create_user : RoomUser → M (DelfosnarSystem W) Bool
  unfolding store_user
  gari_create_user room_user_type = do
    delfosnar_guid ← gets (λ s. s.own.delfosnar_guid)
    answer ← Schedule.traced W (turn W) read_room (read_session delfosnar_guid room_user_type)
    when answer.0 (do Desktop.lock W (turn W); store_user room_user_type answer.1)
    pure answer.0

  unfoldable pub gari_update_room : (Own → ℕ) → M (DelfosnarSystem W) Bool
  gari_update_room user_guid = do
    gari_user_guid ← gets (λ s. user_guid s.own)
    delfosnar_guid ← gets (λ s. s.own.delfosnar_guid)
    answer ←
        Schedule.traced W (turn W) update_room
          (update delfosnar_guid gari_user_guid workflow_chatfile_pod)
    pure answer.0

  unfoldable pub update_or_break : (Own → ℕ) → M (DelfosnarSystem W) (Unit {0})
  unfolding gari_update_room
  update_or_break user_guid = do
    succeeded ← gari_update_room user_guid
    leave_if (not succeeded) broke
    Desktop.sleep_delta W (turn W)
    Desktop.break_if_stopped W (turn W)

  -- "Several room updates", with so many rounds to go.
  unfoldable pub updates : ℕ → M (DelfosnarSystem W) (Unit {0})
  unfolding update_or_break
  updates zero = pure tt
  updates (suc n) = do
    update_or_break (λ own. own.gari_presenter_guid)
    update_or_break (λ own. own.gari_viewer_guid)
    updates n
