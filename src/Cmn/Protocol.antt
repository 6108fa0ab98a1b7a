-- ===== src/Cmn/Protocol.antt =====
-- The protocol of a `CMNWorkflow` with its servers: a machine that reads the log of requests and
-- knows the guids of the session and of the lead that the answers have given.
use delfos.Prelude.{
  Bool, true, false, not, ◌&&◌, List, [], ◌∷◌, Option, none, some, Text, text_eq, is_empty,
}
use delfos.World.{World}
use delfos.World.Requests.{
  Request, getvateams, login, change_status, check_vateam, get_availability, request_lead,
  open_session, set_result, logout, alive, alive_lead, create_seed, update, read_session,
  read_session_user, user, available,
}
use delfos.Workflow.State.{Thread, sequence_thread, alive_thread, Entry}
use delfos.Cmn.Call.{lead_in}

-- `s` is the guid of the session, `l` that of the lead. `halted` is after a failure: the alive
-- thread may go on for them.
pub data Phase : Type 0 where
  created seeded closed : Phase
  logged ready offered resulted : (s : Text) → Phase
  leading talking updated halted : (s l : Text) → Phase

abbrev pub session_of : Phase → Text
session_of created = []
session_of seeded = []
session_of closed = []
session_of (logged s) = s
session_of (ready s) = s
session_of (offered s) = s
session_of (resulted s) = s
session_of (leading s l) = s
session_of (talking s l) = s
session_of (updated s l) = s
session_of (halted s l) = s

abbrev pub lead_of : Phase → Text
lead_of (leading s l) = l
lead_of (talking s l) = l
lead_of (updated s l) = l
lead_of (halted s l) = l
lead_of created = []
lead_of seeded = []
lead_of closed = []
lead_of (logged s) = []
lead_of (ready s) = []
lead_of (offered s) = []
lead_of (resulted s) = []

abbrev pub check {ℓ} : {A : Type ℓ} → Bool → A → Option A
check true p = some p
check false p = none

abbrev pub on {ℓ} : {A : Type ℓ} → Bool → A → A → A
on true p q = p
on false p q = q

module _ (W : World) where
  -- The answer of a login that holds a session.
  abbrev pub logged_by : W.Json → Phase
  logged_by json =
      let v = W.member json W.keys.session_id in
      on (W.has_member json W.keys.session_id && W.is_string v) (logged (W.get_string v))
        (halted [] [])

  abbrev pub led_by : Text → Text → Phase
  led_by s l = on (is_empty l) (halted s []) (leading s l)

  -- What the sequence may ask in each phase, and where the answer leads.
  abbrev pub sequence_next : Phase → Request → Bool → W.Json → Option Phase
  sequence_next created (create_seed g) ok json = some (on ok seeded closed)
  sequence_next seeded (getvateams a v) ok json = some seeded
  sequence_next seeded (login a) ok json = some (on ok (logged_by json) closed)
  sequence_next (logged s) (change_status a s' available) ok json =
      check (text_eq s s') (on ok (ready s) (halted s []))
  sequence_next (ready s) (check_vateam a s' v) ok json =
      check (text_eq s s') (on ok (ready s) (halted s []))
  sequence_next (ready s) (get_availability b) ok json = some (on ok (offered s) (halted s []))
  sequence_next (offered s) (request_lead d) ok json =
      some (on ok (led_by s (lead_in W json)) (halted s []))
  sequence_next (leading s l) (open_session p a s') ok json =
      check (text_eq s s') (on ok (talking s l) (halted s l))
  sequence_next (talking s l) (update r u p) ok json = check (text_eq l r) (updated s l)
  sequence_next (updated s l) (set_result l' n) ok json =
      check (text_eq l l') (on ok (resulted s) (halted s []))
  sequence_next (resulted s) (logout a s') ok json = check (text_eq s s') closed
  sequence_next _ _ ok json = none

  -- The alive thread speaks for the session and the lead that the phase knows.
  abbrev pub alive_next : Phase → Request → Option Phase
  alive_next p (alive a s) = check (not (is_empty s) && text_eq (session_of p) s) p
  alive_next p (alive_lead a s l) =
      check (not (is_empty s) && text_eq (session_of p) s && text_eq (lead_of p) l) p
  alive_next p (read_session l user) = check (not (is_empty l) && text_eq (lead_of p) l) p
  alive_next p (read_session_user l u) = check (not (is_empty l) && text_eq (lead_of p) l) p
  alive_next p _ = none

  abbrev pub next_of : Thread → Phase → Request → Bool → W.Json → Option Phase
  next_of sequence_thread p r ok json = sequence_next p r ok json
  next_of alive_thread p r ok json = alive_next p r

  abbrev pub step : Option Phase → Entry W.Json → Option Phase
  step none e = none
  step (some p) e = next_of e.by p e.request e.succeeded e.answer

  -- The phase after a log, the newest entry first; `none` where the protocol was broken.
  unfoldable pub phase : List (Entry W.Json) → Option Phase
  phase [] = some created
  phase (e ∷ log) = step (phase log) e
