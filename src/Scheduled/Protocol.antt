-- ===== src/Scheduled/Protocol.antt =====
-- The protocol of a `ScheduledWorkflow` with the lead manager and the room server.
use delfos.Prelude.{Bool, [], Option, none, some, Text, text_eq, is_empty}
use delfos.World.{World}
use delfos.World.Requests.{
  Request, getvateams, login, change_status, check_vateam, request_lead, open_session, set_result,
  logout, create_seed, available, busy,
}
use delfos.Workflow.State.{Thread, sequence_thread, alive_thread}
use delfos.Cmn.Protocol.{check, on}
use delfos.Protocol.{Machine, Account}
use delfos.Desktop.{lead_found, logged_by}
use delfos.Desktop.Phases.{Phase, Words, Fits, says, phase_at, words_of}
use delfos.Scheduled.{ScheduledFields, lead_session_found}

-- `halted` is after a failure: the alive thread may go on for what is known then.
pub data Stage : Type 0 where
  created seeded closed asked logged occupied ready leading resulted halted : Stage

-- The third guid is that of the lead's session.
abbrev pub stage : Stage → Text → Text → Text → Phase Stage
stage = phase_at

abbrev pub led_by : Text → Text → Text → Phase Stage
led_by s t l = on (is_empty l) (stage halted s [] t) (stage leading s l t)

module _ (W : World) where
  -- What the sequence may ask in each stage, and where the answer leads.
  abbrev pub sequence_next : Stage → (s l t : Text) → Request → Bool → W.Json → Option (Phase Stage)
  sequence_next created s l t (create_seed g) ok json =
      some (on ok (stage seeded [] [] []) (stage closed [] [] []))
  sequence_next seeded s l t (request_lead d) ok json =
      some (on ok (stage asked [] [] []) (stage closed [] [] []))
  sequence_next asked s l t (getvateams a v) ok json = some (stage asked [] [] [])
  sequence_next asked s l t (login a) ok json = some (
      on ok (logged_by W (λ s. stage logged s [] []) (stage closed [] [] []) json)
        (stage closed [] [] []))
  sequence_next logged s l t (check_vateam a s' v) ok json =
      check (text_eq s s') (on ok (stage logged s [] []) (stage halted s [] []))
  sequence_next logged s l t (change_status a s' busy) ok json =
      check (text_eq s s') (on ok (stage occupied s [] []) (stage halted s [] []))
  sequence_next occupied s l t (change_status a s' available) ok json =
      check (text_eq s s') (on ok (stage ready s [] []) (stage halted s [] []))
  sequence_next ready s l t (open_session p a s') ok json =
      check (text_eq s s')
        (on ok (led_by s (lead_session_found W json) (lead_found W json)) (stage halted s [] []))
  sequence_next leading s l t (set_result l' n) ok json =
      check (text_eq l l') (on ok (stage resulted s [] []) (stage halted s [] []))
  sequence_next resulted s l t (logout a s') ok json =
      check (text_eq s s') (on ok (stage seeded [] [] []) (stage closed [] [] []))
  sequence_next _ s l t _ ok json = none

  -- The alive thread speaks for the session and the lead that are known, and reads the room of the
  -- lead's session.
  abbrev pub next_of : Thread → Phase Stage → Request → Bool → W.Json → Option (Phase Stage)
  next_of sequence_thread p r ok json = sequence_next p.stage p.session p.lead p.third r ok json
  next_of alive_thread p r ok json = check (says p.session p.lead p.third r) p

  abbrev pub machine : Machine W
  machine = record { Phase = Phase Stage; start = stage created [] [] []; next = next_of }

  abbrev pub account : Account W (ScheduledFields W.Call)
  account = record {
    machine = machine;
    Words = Words;
    words = λ own. words_of own.session_guid own.lead_guid own.lead_session_guid;
    Fits = Fits;
  }
