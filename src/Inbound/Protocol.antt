-- ===== src/Inbound/Protocol.antt =====
-- The protocol of an `InboundWorkflow` with the lead manager and the room server.
use delfos.Prelude.{Bool, [], Option, none, some, Text, text_eq, is_empty}
use delfos.World.{World}
use delfos.World.Requests.{
  Request, getvateams, login, change_status, check_vateam, get_availability, open_session,
  set_result, logout, create_seed, available,
}
use delfos.Workflow.State.{Thread, sequence_thread, alive_thread}
use delfos.Cmn.Protocol.{check, on}
use delfos.Protocol.{Machine, Account}
use delfos.Desktop.{lead_found, logged_by}
use delfos.Desktop.Phases.{Phase, Words, Fits, says, phase_at, words_of}
use delfos.Inbound.{InboundFields}

-- `halted` is after a failure: the alive thread may go on for what is known then.
pub data Stage : Type 0 where
  created seeded closed logged ready offered leading resulted halted : Stage

abbrev pub stage : Stage → Text → Text → Phase Stage
stage k s l = phase_at k s l []

abbrev pub led_by : Text → Text → Phase Stage
led_by s l = on (is_empty l) (stage halted s []) (stage leading s l)

module _ (W : World) where
  -- What the sequence may ask in each stage, and where the answer leads.
  abbrev pub sequence_next : Stage → (s l : Text) → Request → Bool → W.Json → Option (Phase Stage)
  sequence_next created s l (create_seed g) ok json =
      some (on ok (stage seeded [] []) (stage closed [] []))
  sequence_next seeded s l (getvateams a v) ok json = some (stage seeded [] [])
  sequence_next seeded s l (login a) ok json =
      some (
        on ok (logged_by W (λ s. stage logged s []) (stage closed [] []) json) (stage closed [] []))
  sequence_next logged s l (change_status a s' available) ok json =
      check (text_eq s s') (on ok (stage ready s []) (stage halted s []))
  sequence_next ready s l (check_vateam a s' v) ok json =
      check (text_eq s s') (on ok (stage ready s []) (stage halted s []))
  sequence_next ready s l (get_availability b) ok json =
      some (on ok (stage offered s []) (stage halted s []))
  sequence_next offered s l (open_session p a s') ok json =
      check (text_eq s s') (on ok (led_by s (lead_found W json)) (stage halted s []))
  sequence_next leading s l (set_result l' n) ok json =
      check (text_eq l l') (on ok (stage resulted s []) (stage halted s []))
  sequence_next resulted s l (logout a s') ok json =
      check (text_eq s s') (on ok (stage seeded [] []) (stage closed [] []))
  sequence_next _ s l _ ok json = none

  -- The alive thread speaks for the session and the lead that are known, and reads the lead's room.
  abbrev pub next_of : Thread → Phase Stage → Request → Bool → W.Json → Option (Phase Stage)
  next_of sequence_thread p r ok json = sequence_next p.stage p.session p.lead r ok json
  next_of alive_thread p r ok json = check (says p.session p.lead p.lead r) p

  abbrev pub machine : Machine W
  machine = record { Phase = Phase Stage; start = stage created [] []; next = next_of }

  abbrev pub account : Account W (InboundFields W.Call)
  account = record {
    machine = machine;
    Words = Words;
    words = λ own. words_of own.session_guid own.lead_guid [];
    Fits = Fits;
  }
