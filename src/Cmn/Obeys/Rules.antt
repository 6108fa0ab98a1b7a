-- ===== src/Cmn/Obeys/Rules.antt =====
-- The rules of the shared operations at a place in the protocol of `CMNWorkflow`.
use delfos.Prelude.{◌≡◌, refl, inl, inr, Bool, true, false, [], some, Text}
use delfos.World.{World}
use delfos.World.Requests.{Request, event_of}
use delfos.Monad.{Exit, broke, threw, hung, gets, modify}
use delfos.Monad.Triple.{Triple}
use delfos.Workflow.State.{sequence_thread, Fields, set_fields, ask}
use delfos.Workflow.Rules.{
  On, Triple-ask, Triple-schedule, Triple-sleep_delta, Triple-break_if_stopped, Triple-traced,
  Triple-traced_or_break,
}
use delfos.Workflow.Schedule
use delfos.Twilio.{Tracker}
use delfos.Cmn.State.{CmnSystem, set_session, set_lead, tracking}
use delfos.Cmn.Alive.{turn}
use delfos.Cmn.Sequence.{break_if_stopped, sleep_delta, traced_or_break, lock}
use delfos.Cmn.Protocol.{Phase, session_of, lead_of, sequence_next, on}
use delfos.Cmn.Obeys.{Fits, At, advance, turn-KeptBy}

pub Fits-nothing : (p : Phase) → Fits p [] []
Fits-nothing p = record { speaks = inl refl; leads = inl refl }

pub Fits-session : (p : Phase) (s : Text) → session_of p ≡ s → Fits p s []
Fits-session p s e = record { speaks = inr e; leads = inl refl }

pub Fits-lead : (p : Phase) (s l : Text) → session_of p ≡ s → lead_of p ≡ l → Fits p s l
Fits-lead p s l e f = record { speaks = inr e; leads = inr f }

pub Fits-on : (b : Bool) (p q : Phase) {S L : Text} → Fits p S L → Fits q S L → Fits (on b p q) S L
Fits-on true p q f g = f
Fits-on false p q f g = g

module _ (W : World) where
  abbrev pub Standing : Phase → Text → Text → CmnSystem W → Type 0
  Standing p S L = On W (At W p S L)

  -- The protocol has been kept, wherever it has led.
  pub record Somewhere (s : CmnSystem W) : Type 0 where
    pub place : Phase
    pub session : Text
    pub lead : Text
    pub stands : Standing place session lead s

  abbrev pub somewhere : (p : Phase) (S L : Text) (s : CmnSystem W) → Standing p S L s → Somewhere s
  somewhere p S L s h = record { place = p; session = S; lead = L; stands = h }

  -- Out of the loop: by `break`, or in the model for lack of fuel, but by no exception.
  abbrev pub Out : Exit → CmnSystem W → Type 0
  Out broke s = Somewhere s
  Out hung s = Somewhere s
  Out threw s = ⊥

  -- Out of the code before the loop: by an exception.
  abbrev pub Thrown : Exit → CmnSystem W → Type 0
  Thrown broke s = ⊥
  Thrown hung s = ⊥
  Thrown threw s = Somewhere s

  module _ (p : Phase) (S L : Text) {Y : Exit → CmnSystem W → Type 0} where
    pub lock-Stands : Triple (Standing p S L) (lock W) (λ _. Standing p S L) Y
    lock-Stands = Triple-schedule W (turn-KeptBy W p S L)

    pub sleep_delta-Stands : Triple (Standing p S L) (sleep_delta W) (λ _. Standing p S L) Y
    sleep_delta-Stands = Triple-sleep_delta W (turn-KeptBy W p S L)

    pub tracking-Stands :
        (f : Tracker W.Call → Tracker W.Call)
        → Triple (Standing p S L) (tracking W (modify f)) (λ _. Standing p S L) Y
    unfolding tracking modify
    tracking-Stands f = record { at = λ s h. h }

    pub ask-Stands :
        {A : Type 0} (f : W.State → A × W.State)
        → Triple (Standing p S L) (ask W f) (λ _. Standing p S L) Y
    ask-Stands f = Triple-ask W (At W p S L) f

    pub gets-Stands :
        {A : Type 0} (f : CmnSystem W → A)
        → Triple (Standing p S L) (gets f) (λ _. Standing p S L) Y
    unfolding gets
    gets-Stands f = record { at = λ s h. h }

    pub fields-Stands :
        (f : Fields W.Json → Fields W.Json)
        → Triple (Standing p S L) (modify (set_fields W f)) (λ _. Standing p S L) Y
    unfolding modify set_fields
    fields-Stands f = record { at = λ s h. h }

    pub set_session-Stands :
        (S' : Text)
        → Fits p S' L
        → Triple (Standing p S L) (modify (set_session W S')) (λ _. Standing p S' L) Y
    unfolding modify set_session
    set_session-Stands S' f = record {
      at = λ s h. record {
        accepted = h.accepted;
        session_kept = refl;
        lead_kept = h.lead_kept;
        fits = f;
        traced = h.traced;
      };
    }

    pub set_lead-Stands :
        (L' : Text)
        → Fits p S L'
        → Triple (Standing p S L) (modify (set_lead W L')) (λ _. Standing p S L') Y
    unfolding modify set_lead
    set_lead-Stands L' f = record {
      at = λ s h. record {
        accepted = h.accepted;
        session_kept = h.session_kept;
        lead_kept = refl;
        fits = f;
        traced = h.traced;
      };
    }

    pub traced-Stands :
        (p' : Bool × W.Json → Phase) (r : Request)
        → ((a : Bool × W.Json) → sequence_next W p r a.0 a.1 ≡ some (p' a))
        → ((a : Bool × W.Json) → Fits (p' a) S L)
        → Triple
            (Standing p S L)
            (Schedule.traced W (turn W) (event_of r) r)
            (λ a. Standing (p' a) S L)
            Y
    traced-Stands p' r moves fits =
        Triple-traced W (turn-KeptBy W p S L) (λ a. At W (p' a) S L) (λ a. turn-KeptBy W (p' a) S L)
          (event_of r) r (advance W sequence_thread (event_of r) r p p' S L refl moves fits)

  module _ (p : Phase) (S L : Text) where
    pub break_if_stopped-Stands :
        Triple (Standing p S L) (break_if_stopped W) (λ _. Standing p S L) Out
    break_if_stopped-Stands =
        Triple-break_if_stopped W (turn-KeptBy W p S L) (λ s h. somewhere p S L s h)

    pub traced_or_break-Stands :
        (p' : Bool × W.Json → Phase) (r : Request)
        → ((a : Bool × W.Json) → sequence_next W p r a.0 a.1 ≡ some (p' a))
        → ((a : Bool × W.Json) → Fits (p' a) S L)
        → Triple
            (Standing p S L)
            (traced_or_break W (event_of r) r)
            (λ json. Standing (p' (true, json)) S L)
            Out
    traced_or_break-Stands p' r moves fits =
        Triple-traced_or_break W (turn-KeptBy W p S L) (λ a. At W (p' a) S L)
          (λ a. turn-KeptBy W (p' a) S L) (event_of r) r
          (advance W sequence_thread (event_of r) r p p' S L refl moves fits)
          (λ json s h. somewhere (p' (false, json)) S L s h)
