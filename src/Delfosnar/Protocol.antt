-- ===== src/Delfosnar/Protocol.antt =====
-- The protocol of a `delfosnarWorkflow` with the lead manager and the room server.
use delfos.Prelude.{ℕ, suc, Bool, false, ◌&&◌, ltb, ◌==◌, [], Option, none, some, Text, text_eq}
use delfos.World.{World}
use delfos.World.Requests.{
  Request, getvateams, login, change_status, check_vateam, get_availability, alive_branchgroup,
  create_delfosnar, close, read_session, read_session_user, update, logout, create_seed, available,
  presenter, viewer,
}
use delfos.Workflow.State.{Thread, sequence_thread, alive_thread}
use delfos.Cmn.Protocol.{check, on}
use delfos.Protocol.{Machine, Account}
use delfos.Desktop.{logged_by}
use delfos.Desktop.Phases.{Phase, Words, Fits, is_known, phase_at, words_of}
use delfos.Delfosnar.State.{Own}
use delfos.Delfosnar.Room.{delfosnar_found}

-- `updated n` is after `n` updates of the room. `halted` is after a failure, `crashed` after that of
-- the delfosnar's alive: the alive thread may go on for what is known then.
pub data Stage : Type 0 where
  created seeded closed logged ready offered living held presented ended halted crashed : Stage
  updated : ℕ → Stage

-- The second guid is the delfosnar's.
abbrev pub stage : Stage → Text → Text → Phase Stage
stage k s d = phase_at k s d []

-- The updates of a round, for the presenter and for the viewer.
abbrev pub all_updates : ℕ
all_updates = 10

abbrev pub reads : Text → Request → Bool
reads d (read_session_user d' u) = is_known d d'
reads d _ = false

module _ (W : World) where
  -- What the sequence may ask in each stage, and where the answer leads.
  abbrev pub sequence_next : Stage → (s d : Text) → Request → Bool → W.Json → Option (Phase Stage)
  sequence_next created s d (create_seed g) ok json =
      some (on ok (stage seeded [] []) (stage closed [] []))
  sequence_next seeded s d (getvateams a v) ok json = some (stage seeded [] [])
  sequence_next seeded s d (login a) ok json =
      some (
        on ok (logged_by W (λ s. stage logged s []) (stage closed [] []) json) (stage closed [] []))
  sequence_next logged s d (change_status a s' available) ok json =
      check (text_eq s s') (on ok (stage ready s []) (stage halted s []))
  sequence_next ready s d (check_vateam a s' v) ok json =
      check (text_eq s s') (on ok (stage ready s []) (stage halted s []))
  sequence_next ready s d (get_availability b) ok json =
      some (on ok (stage offered s []) (stage halted s []))
  sequence_next offered s d (alive_branchgroup a s' b) ok json =
      check (text_eq s s') (on ok (stage living s []) (stage crashed s []))
  sequence_next living s d (create_delfosnar b t e g a s') ok json =
      check (text_eq s s') (on ok (stage held s (delfosnar_found W json [])) (stage halted s []))
  sequence_next held s d (read_session d' presenter) ok json =
      check (text_eq d d') (stage presented s d)
  sequence_next presented s d (read_session d' viewer) ok json =
      check (text_eq d d') (stage (updated 0) s d)
  sequence_next (updated n) s d (update d' u p) ok json =
      check (text_eq d d' && ltb n all_updates)
        (on ok (stage (updated (suc n)) s d) (stage halted s d))
  sequence_next (updated n) s d (close d' a s') ok json =
      check (text_eq d d' && text_eq s s' && (n == all_updates))
        (on ok (stage ended s d) (stage halted s d))
  sequence_next ended s d (logout a s') ok json =
      check (text_eq s s') (on ok (stage seeded [] []) (stage closed [] []))
  sequence_next _ s d _ ok json = none

  -- The alive thread reads the room of the delfosnar that is known, and asks nothing else.
  abbrev pub next_of : Thread → Phase Stage → Request → Bool → W.Json → Option (Phase Stage)
  next_of sequence_thread p r ok json = sequence_next p.stage p.session p.lead r ok json
  next_of alive_thread p r ok json = check (reads p.lead r) p

  abbrev pub machine : Machine W
  machine = record { Phase = Phase Stage; start = stage created [] []; next = next_of }

  abbrev pub account : Account W Own
  account = record {
    machine = machine;
    Words = Words;
    words = λ own. words_of own.session_guid own.delfosnar_guid [];
    Fits = Fits;
  }
