-- ===== src/Protocol.antt =====
-- Protocols: machines that read the log of a workflow's requests, and what it is for a workflow to
-- stand somewhere in one.
pub mod Rules
pub mod Whole
use delfos.Prelude.{◌≡◌, Bool, true, false, List, [], ◌∷◌, Option, none, some}
use delfos.Trace.{RequestTrace}
use delfos.World.{World}
use delfos.World.Requests.{Request, event_of}
use delfos.Workflow.State.{Thread, sequence_thread, alive_thread, Entry, Handed}
use delfos.Workflow.Rules.{View, Recorded, handed}
use delfos.Workflow.Traced.{IsPending, IsPending-asked, IsNamed-handed, IsPending-spoken}

-- The phase `next` leads to when a thread's request has been answered; `none` forbids the request.
pub record Machine (W : World) : Type 1 where
  pub Phase : Type 0
  pub start : Phase
  pub next : Thread → Phase → Request → Bool → W.Json → Option Phase

module _ {W : World} (m : Machine W) where
  abbrev pub step : Option m.Phase → Entry W.Json → Option m.Phase
  step none e = none
  step (some p) e = m.next e.by p e.request e.succeeded e.answer

  -- The phase after a log, the newest entry first; `none` where the protocol was broken.
  unfoldable pub phase : List (Entry W.Json) → Option m.Phase
  phase [] = some m.start
  phase (e ∷ log) = step (phase log) e

-- What a proof about a workflow fixes: its machine, the fields that its alive thread reads, and
-- which of their values a phase allows.
pub record Account (W : World) (X : Type 0) : Type 1 where
  pub machine : Machine W
  pub Words : Type 0
  pub words : X → Words
  pub Fits : machine.Phase → Words → Type 0

module _ {W : World} {X : Type 0} (a : Account W X) where
  abbrev pub Place : Type 0
  Place = a.machine.Phase

  -- The log has led to phase `p`, its traces match it but for the request `q`, and the fields hold
  -- `v`.
  pub record Stands (p : Place) (v now : a.Words) (q : Option (Entry W.Json))
      (log : List (Entry W.Json)) (inserted : List (Handed W.Json)) : Type 0 where
    pub accepted : phase a.machine log ≡ some p
    pub kept : now ≡ v
    pub fits : a.Fits p v
    pub traced : IsPending W event_of q log inserted

  abbrev pub At : Place → a.Words → View W X
  At p v q own log inserted = Stands p v (a.words own) q log inserted

  pub advance :
      (by : Thread) (r : Request) (p : Place) (p' : Bool × W.Json → Place) (v : a.Words)
      → ((answer : Bool × W.Json) → a.machine.next by p r answer.0 answer.1 ≡ some (p' answer))
      → ((answer : Bool × W.Json) → a.Fits (p' answer) v)
      → Recorded W by (event_of r) r (At p v) (λ answer. At (p' answer) v)
  unfolding phase
  advance alive_thread r p p' v moves fits = λ answer q own log inserted t h c d. record {
    accepted = rw h.accepted (moves answer);
    kept = h.kept;
    fits = fits answer;
    traced = IsPending-spoken W event_of r answer log inserted t q h.traced c d;
  }
  advance sequence_thread r p p' v moves fits = (
    λ answer own log inserted h. record {
      accepted = rw h.accepted (moves answer);
      kept = h.kept;
      fits = fits answer;
      traced = IsPending-asked W event_of r answer log inserted h.traced;
    },
    λ answer own log inserted t h c d. record {
      accepted = h.accepted;
      kept = h.kept;
      fits = h.fits;
      traced = IsNamed-handed W event_of r answer log inserted t h.traced c d;
    },
  )

  -- What the alive thread asks keeps the phase.
  pub says :
      (r : Request) (p : Place) (v : a.Words)
      → ((answer : Bool × W.Json)
          → a.Fits p v
          → a.machine.next alive_thread p r answer.0 answer.1 ≡ some p)
      → Recorded W alive_thread (event_of r) r (At p v) (λ _. At p v)
  says r p v moves answer q own log inserted t h =
      advance alive_thread r p (λ _. p) v (λ answer. moves answer h.fits) (λ _. h.fits) answer q own
        log inserted t h
