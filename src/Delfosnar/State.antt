-- ===== src/Delfosnar/State.antt =====
-- The fields of `delfosnarWorkflow`, and its `alive_worker`.
use delfos.Prelude.{ℕ, not, ◌&&◌, [], Text, codes, ◌==◌, is_empty, if◌then◌else◌}
use delfos.Barrier.{Barrier}
use delfos.World.{World, Turn, alive_turn, event_turn, request_turn}
use delfos.World.Requests.{RoomUser, presenter, viewer, read_room, read_session_user}
use delfos.Monad.{M, threw, pure, gets, leave_if, when, ◌>>=◌, ◌>>◌}
use delfos.Workflow.State.{System}
use delfos.Workflow.Construct.{construct}
use delfos.Workflow.Traces.{traced_alive}
use delfos.Workflow.Schedule

abbrev pub delfosnar_title : Text
delfosnar_title = codes "my-title"

abbrev pub delfosnar_description : Text
delfosnar_description = codes "my-description"

-- `WHISBINAR_UPDATE_ROOM`
abbrev pub delfosnar_update_room : ℕ
delfosnar_update_room = 5

pub record Own : Type 0 where
  pub session_guid : Text
  pub delfosnar_guid : Text
  pub gari_viewer_guid : ℕ
  pub gari_presenter_guid : ℕ

abbrev pub set_session : Text → Own → Own
set_session guid own = record own { session_guid = guid }

abbrev pub set_delfosnar : Text → Own → Own
set_delfosnar guid own = record own { delfosnar_guid = guid }

-- The reference that `gari_create_user` sets, and its value.
abbrev pub set_user : RoomUser → ℕ → Own → Own
set_user presenter guid own = record own { gari_presenter_guid = guid }
set_user viewer guid own = record own { gari_viewer_guid = guid }
set_user RoomUser.user guid own = own

abbrev pub cleared : Own → Own
cleared own = record {
  session_guid = [];
  delfosnar_guid = [];
  gari_viewer_guid = 0;
  gari_presenter_guid = 0;
}

module _ (W : World) where
  abbrev pub DelfosnarSystem : Type 0
  DelfosnarSystem = System W Own

  -- The constructor.
  unfoldable pub new_workflow : ℕ → Barrier → W.State → DelfosnarSystem
  unfolding construct
  new_workflow agent_position = construct W (codes "delfosnar") agent_position (record {
    session_guid = [];
    delfosnar_guid = [];
    gari_viewer_guid = 0;
    gari_presenter_guid = 0;
  })

  unfoldable pub gari_read_room : ℕ → M DelfosnarSystem (Unit {0})
  gari_read_room gari_user_guid = do
    delfosnar_guid ← gets (λ s. s.own.delfosnar_guid)
    answer ← traced_alive W read_room (read_session_user delfosnar_guid gari_user_guid)
    leave_if (not answer.0) threw

  -- The room is read for a user that is there.
  unfoldable pub read_as : (Own → ℕ) → M DelfosnarSystem (Unit {0})
  unfolding gari_read_room
  read_as user_guid = do
    delfosnar_guid ← gets (λ s. s.own.delfosnar_guid)
    guid ← gets (λ s. user_guid s.own)
    when (not (is_empty delfosnar_guid) && not (guid == 0)) (gari_read_room guid)

  -- One round of `alive_worker`, which holds `_session_mutex`.
  unfoldable pub alive_round : Text → M DelfosnarSystem (Unit {0})
  unfolding read_as
  alive_round agent_guid = do
    session_guid ← gets (λ s. s.own.session_guid)
    if is_empty session_guid
        then pure tt
        else (do read_as (λ own. own.gari_presenter_guid); read_as (λ own. own.gari_viewer_guid))

  -- The handlers of Twilio are those of `Workflow`, which do nothing.
  unfoldable pub turn : Turn W.Http → M DelfosnarSystem (Unit {0})
  unfolding alive_round
  turn alive_turn = Schedule.alive_step W (alive_round)
  turn (event_turn http) = pure tt
  turn (request_turn http response) = pure tt
