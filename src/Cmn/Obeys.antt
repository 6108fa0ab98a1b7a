-- ===== src/Cmn/Obeys.antt =====
-- Where a `CMNWorkflow` stands in its protocol, and what the other threads keep of it.
pub mod Rules
pub mod Desktop
pub mod Talk
pub mod Run
use delfos.Prelude.{
  ℕ, ◌≢◌, ◌≡◌, refl, ◌⊎◌, inl, inr, Bool, true, false, not, List, [], ◌∷◌, Option, none, some, Text,
  text_eq, text_eq_refl, is_empty, if◌then◌else◌, arith,
}
use delfos.Trace.{RequestTrace}
use delfos.World.{World, Turn, alive_turn, event_turn, request_turn}
use delfos.World.Requests.{
  Request, Event, event_of, alive, alive_lead, read_session, read_session_user, user, desktop_alive,
  read_room,
}
use delfos.Monad.{Exit, Res, val, exit, M, pure, gets, ◌>>=◌}
use delfos.Monad.Triple.{Triple, Post-same, Triple-read, Triple-pure, Triple-if, ◌⟫◌}
use delfos.Workflow.State.{Thread, sequence_thread, alive_thread, Entry, Handed, System}
use delfos.Workflow.Rules.{View, Doing, On, During, Recorded, KeptBy, handed}
use delfos.Workflow.Traced.{IsPending, IsPending-asked, IsNamed-handed, IsPending-spoken}
use delfos.Workflow.AliveRules.{Quiet, alive_lm-Quiet, alive_gari-Quiet, alive_step-Quiet}
use delfos.Twilio.{Tracker, lead_event}
use delfos.Cmn.State.{CmnFields, CmnSystem, tracking}
use delfos.Cmn.Alive.{alive_round, twilio_event, turn}
use delfos.Cmn.Protocol.{Phase, session_of, lead_of, alive_next, next_of, phase}

-- What the alive thread may say is what the phase knows.
pub record Fits (p : Phase) (session lead : Text) : Type 0 where
  pub speaks : (session ≡ []) ⊎ (session_of p ≡ session)
  pub leads : (lead ≡ []) ⊎ (lead_of p ≡ lead)

module _ (W : World) where
  -- The log has led to phase `p`, its traces match it but for `q`, and the fields that the alive thread reads
  -- hold `session` and `lead`.
  pub record Stands (p : Phase) (session lead session_guid lead_guid : Text)
      (q : Option (Entry W.Json)) (log : List (Entry W.Json)) (inserted : List (Handed W.Json))
      : Type 0 where
    pub accepted : phase W log ≡ some p
    pub session_kept : session_guid ≡ session
    pub lead_kept : lead_guid ≡ lead
    pub fits : Fits p session lead
    pub traced : IsPending W event_of q log inserted

  abbrev pub At : Phase → Text → Text → View W (CmnFields W.Call)
  At p session lead q own log inserted =
      Stands p session lead own.session_guid own.lead_guid q log inserted

  pub advance :
      (by : Thread) (event : Event) (r : Request) (p : Phase) (p' : Bool × W.Json → Phase)
      (session lead : Text)
      → event_of r ≡ event
      → ((answer : Bool × W.Json) → next_of W by p r answer.0 answer.1 ≡ some (p' answer))
      → ((answer : Bool × W.Json) → Fits (p' answer) session lead)
      → Recorded W by event r (At p session lead) (λ answer. At (p' answer) session lead)
  unfolding phase
  advance alive_thread event r p p' session lead e moves fits = λ answer q own log inserted t h c d.
      record {
        accepted = rw h.accepted (moves answer);
        session_kept = h.session_kept;
        lead_kept = h.lead_kept;
        fits = fits answer;
        traced = IsPending-spoken W event_of r answer log inserted t q h.traced (rw e c) d;
      }
  advance sequence_thread event r p p' session lead e moves fits = (
    λ answer own log inserted h. record {
      accepted = rw h.accepted (moves answer);
      session_kept = h.session_kept;
      lead_kept = h.lead_kept;
      fits = fits answer;
      traced = IsPending-asked W event_of r answer log inserted h.traced;
    },
    λ answer own log inserted t h c d. record {
      accepted = h.accepted;
      session_kept = h.session_kept;
      lead_kept = h.lead_kept;
      fits = h.fits;
      traced = IsNamed-handed W event_of r answer log inserted t h.traced (rw e c) d;
    },
  )

  empty-eq : (s : Text) → is_empty s ≡ true → s ≡ []
  empty-eq [] h = refl
  empty-eq (x ∷ s) h = cc

  not_empty : (s : Text) → is_empty s ≡ false → s ≢ []
  not_empty [] h = cc
  not_empty (x ∷ s) h = cc

  module _ (p : Phase) (S L : Text) where
    -- What the alive thread asks keeps the phase.
    says :
        (event : Event) (r : Request)
        → event_of r ≡ event
        → (Fits p S L → alive_next W p r ≡ some p)
        → Recorded W alive_thread event r (At p S L) (λ _. At p S L)
    says event r e moves answer q own log inserted t h =
        advance alive_thread event r p (λ _. p) S L e (λ _. moves h.fits) (λ _. h.fits) answer q own
          log inserted t h

    says_alive :
        (g : Text) (b : Bool)
        → is_empty S ≡ false
        → is_empty L ≡ b
        → Recorded W alive_thread desktop_alive
            (if b then alive g S else alive_lead g S L)
            (At p S L)
            (λ _. At p S L)
    says_alive g true hs hl =
        says desktop_alive (alive g S) refl
          λ f. ground (arith, f.speaks, f.leads, text_eq_refl S, text_eq_refl L, not_empty S hs)
    says_alive g false hs hl = says desktop_alive (alive_lead g S L) refl λ f.
        ground
          (arith, f.speaks, f.leads, text_eq_refl S, text_eq_refl L, not_empty S hs, not_empty L hl)

    says_read :
        is_empty L ≡ false
        → (r : Request) → (r ≡ read_session L user) ⊎ ((u : ℕ) × (r ≡ read_session_user L u))
        → Recorded W alive_thread read_room r (At p S L) (λ _. At p S L)
    says_read hl r (inl e) = rw e (
        says read_room (read_session L user) refl
          λ f. ground (arith, f.leads, text_eq_refl L, not_empty L hl))
    says_read hl r (inr (u, e)) = rw e (
        says read_room (read_session_user L u) refl
          λ f. ground (arith, f.leads, text_eq_refl L, not_empty L hl))

    alive_round-Quiet : (c : Doing W.Json) (g : Text) → Quiet W (At p S L) c (alive_round W g)
    unfolding alive_round
    alive_round-Quiet c g =
        Triple-read _ (λ s. s.own.session_guid) S (λ s h. h.0.session_kept)
          (Triple-read _ (λ s. s.own.lead_guid) L (λ s h. h.0.lead_kept)
            (Triple-if (is_empty S) (λ _. Triple-pure tt)
              (λ hs. alive_lm-Quiet W (At p S L) c g S L (says_alive g (is_empty L) hs refl) ⟫ λ _.
                Triple-if (not (is_empty L))
                  (λ hl.
                    alive_gari-Quiet W (At p S L) c L (says_read (ground arith) _ (inl refl))
                      (λ u. says_read (ground arith) _ (inr (u, refl))))
                  (λ _. Triple-pure tt))))

    -- The call's fields may change at will.
    pub tracking-Quiet :
        {A : Type 0} (c : Doing W.Json) (m : M (Tracker W.Call) A)
        → Quiet W (At p S L) c (tracking W m)
    unfolding tracking
    tracking-Quiet c m = record {
      at = λ s h. Post-same (During W (At p S L) c) (m s.own.tracker).0 _ h;
    }

    -- Whatever the other threads do, the workflow stands where it stood.
    pub turn-KeptBy : KeptBy W (turn W) (At p S L)
    unfolding turn twilio_event
    turn-KeptBy = record { kept = λ c t. each c t }
      where
        each : (c : Doing W.Json) (t : Turn W.Http) → Quiet W (At p S L) c (turn W t)
        each c alive_turn = alive_step-Quiet W (At p S L) c (alive_round W) (alive_round-Quiet c)
        each c (event_turn http) = tracking-Quiet c (lead_event W http) ⟫ λ _. Triple-pure tt
        each c (request_turn http response) = Triple-pure tt
