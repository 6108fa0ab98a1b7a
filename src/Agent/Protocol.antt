-- ===== src/Agent/Protocol.antt =====
-- The protocol of an `AgentWorkflow` with the lead manager.
use delfos.Prelude.{Bool, not, ◌&&◌, List, [], ◌∷◌, Option, none, some, Text, text_eq, is_empty}
use delfos.World.{World}
use delfos.World.Requests.{
  Request, Event, event_of, getvateams, login, change_status, check_vateam, logout, alive,
  available, desktop_changestatus_agent,
}
use delfos.Workflow.State.{Thread, sequence_thread, alive_thread, Entry}
use delfos.Cmn.Protocol.{on, check}

-- `s` is the guid of the session. `halted` is after a failure: the alive thread may go on for it.
pub data Phase : Type 0 where
  away : Phase
  logged ready halted : (s : Text) → Phase

abbrev pub session_of : Phase → Text
session_of away = []
session_of (logged s) = s
session_of (ready s) = s
session_of (halted s) = s

-- The command that a request's trace names: the check of a team is traced as a change of status.
abbrev pub traced_as : Request → Event
traced_as (check_vateam _ _ _) = desktop_changestatus_agent
traced_as r = event_of r

module _ (W : World) where
  -- The answer of a login that holds a session.
  abbrev pub logged_by : W.Json → Phase
  logged_by json =
      let v = W.member json W.keys.session_id in
      on (W.has_member json W.keys.session_id && W.is_string v) (logged (W.get_string v))
        (halted [])

  abbrev pub sequence_next : Phase → Request → Bool → W.Json → Option Phase
  sequence_next away (getvateams a v) ok json = some away
  sequence_next away (login a) ok json = some (on ok (logged_by json) (halted []))
  sequence_next (logged s) (change_status a s' available) ok json =
      check (text_eq s s') (on ok (ready s) (halted s))
  sequence_next (ready s) (check_vateam a s' v) ok json =
      check (text_eq s s') (on ok (ready s) (halted s))
  sequence_next (ready s) (logout a s') ok json = check (text_eq s s') (on ok away (halted []))
  sequence_next _ _ ok json = none

  -- The alive thread speaks for the session that the phase knows.
  abbrev pub alive_next : Phase → Request → Option Phase
  alive_next p (alive a s) = check (not (is_empty s) && text_eq (session_of p) s) p
  alive_next p _ = none

  abbrev pub next_of : Thread → Phase → Request → Bool → W.Json → Option Phase
  next_of sequence_thread p r ok json = sequence_next p r ok json
  next_of alive_thread p r ok json = alive_next p r

  abbrev pub step : Option Phase → Entry W.Json → Option Phase
  step none e = none
  step (some p) e = next_of e.by p e.request e.succeeded e.answer

  -- The phase after a log, the newest entry first; `none` where the protocol was broken.
  unfoldable pub phase : List (Entry W.Json) → Option Phase
  phase [] = some away
  phase (e ∷ log) = step (phase log) e
