-- ===== src/Agent/Obeys.antt =====
-- Where an `AgentWorkflow` stands in its protocol: the rules of its operations.
use delfos.Prelude.{
  ◌≢◌, ◌≡◌, refl, ◌⊎◌, Bool, true, false, List, [], ◌∷◌, Option, some, Text, text_eq_refl, is_empty,
  arith,
}
use delfos.World.{World, Turn, alive_turn, event_turn, request_turn}
use delfos.World.Requests.{Request, desktop_alive, alive}
use delfos.Monad.{Exit, broke, threw, hung, modify}
use delfos.Monad.Triple.{Triple, Triple-read, Triple-pure, Triple-if}
use delfos.Workflow.State.{Thread, sequence_thread, alive_thread, Entry, Handed}
use delfos.Workflow.Rules.{
  View, Doing, On, Recorded, KeptBy, Triple-schedule, Triple-sleep_delta, Triple-break_if_stopped,
  Triple-traced_or_break,
}
use delfos.Workflow.Traced.{IsPending, IsPending-asked, IsNamed-handed, IsPending-spoken}
use delfos.Workflow.AliveRules.{Quiet, alive_lm-Quiet, alive_step-Quiet}
use delfos.Cmn.Protocol.{on}
use delfos.Agent.{
  AgentFields, AgentSystem, set_session, alive_round, turn, break_if_stopped, sleep_delta,
  traced_or_break, lock,
}
use delfos.Agent.Protocol.{Phase, session_of, traced_as, sequence_next, next_of, phase}

-- What the alive thread may say is what the phase knows.
abbrev pub Fits : Phase → Text → Type 0
Fits p session = (session ≡ []) ⊎ (session_of p ≡ session)

pub Fits-on : (b : Bool) (p q : Phase) {S : Text} → Fits p S → Fits q S → Fits (on b p q) S
Fits-on true p q f g = f
Fits-on false p q f g = g

module _ (W : World) where
  -- The log has led to phase `p`, its traces match it but for `q`, and the session's field holds `session`.
  pub record Stands (p : Phase) (session session_guid : Text) (q : Option (Entry W.Json))
      (log : List (Entry W.Json)) (inserted : List (Handed W.Json)) : Type 0 where
    pub accepted : phase W log ≡ some p
    pub session_kept : session_guid ≡ session
    pub fits : Fits p session
    pub traced : IsPending W traced_as q log inserted

  abbrev pub At : Phase → Text → View W AgentFields
  At p session q own log inserted = Stands p session own.session_guid q log inserted

  pub advance :
      (by : Thread) (r : Request) (p : Phase) (p' : Bool × W.Json → Phase) (session : Text)
      → ((answer : Bool × W.Json) → next_of W by p r answer.0 answer.1 ≡ some (p' answer))
      → ((answer : Bool × W.Json) → Fits (p' answer) session)
      → Recorded W by (traced_as r) r (At p session) (λ answer. At (p' answer) session)
  unfolding phase
  advance alive_thread r p p' session moves fits = λ answer q own log inserted t h c d. record {
    accepted = rw h.accepted (moves answer);
    session_kept = h.session_kept;
    fits = fits answer;
    traced = IsPending-spoken W traced_as r answer log inserted t q h.traced c d;
  }
  advance sequence_thread r p p' session moves fits = (
    λ answer own log inserted h. record {
      accepted = rw h.accepted (moves answer);
      session_kept = h.session_kept;
      fits = fits answer;
      traced = IsPending-asked W traced_as r answer log inserted h.traced;
    },
    λ answer own log inserted t h c d. record {
      accepted = h.accepted;
      session_kept = h.session_kept;
      fits = h.fits;
      traced = IsNamed-handed W traced_as r answer log inserted t h.traced c d;
    },
  )

  not_empty : (s : Text) → is_empty s ≡ false → s ≢ []
  not_empty [] h = cc
  not_empty (x ∷ s) h = cc

  module _ (p : Phase) (S : Text) where
    says_alive :
        (g : Text)
        → is_empty S ≡ false
        → Recorded W alive_thread desktop_alive (alive g S) (At p S) (λ _. At p S)
    says_alive g hs answer q own log inserted t h =
        advance alive_thread (alive g S) p (λ _. p) S
          (λ _. ground (arith, h.fits, text_eq_refl S, not_empty S hs)) (λ _. h.fits) answer q own
          log inserted t h

    alive_round-Quiet : (c : Doing W.Json) (g : Text) → Quiet W (At p S) c (alive_round W g)
    unfolding alive_round
    alive_round-Quiet c g =
        Triple-read _ (λ s. s.own.session_guid) S (λ s h. h.0.session_kept)
          (Triple-if (is_empty S) (λ _. Triple-pure tt)
            (λ hs. alive_lm-Quiet W (At p S) c g S [] (says_alive g hs)))

    -- Whatever the other threads do, the workflow stands where it stood.
    pub turn-KeptBy : KeptBy W (turn W) (At p S)
    unfolding turn
    turn-KeptBy = record { kept = λ c t. each c t }
      where
        each : (c : Doing W.Json) (t : Turn W.Http) → Quiet W (At p S) c (turn W t)
        each c alive_turn = alive_step-Quiet W (At p S) c (alive_round W) (alive_round-Quiet c)
        each c (event_turn http) = Triple-pure tt
        each c (request_turn http response) = Triple-pure tt

  abbrev pub Standing : Phase → Text → AgentSystem W → Type 0
  Standing p S = On W (At p S)

  -- The protocol has been kept, wherever it has led.
  pub record Somewhere (s : AgentSystem W) : Type 0 where
    pub place : Phase
    pub session : Text
    pub stands : Standing place session s

  abbrev pub somewhere : (p : Phase) (S : Text) (s : AgentSystem W) → Standing p S s → Somewhere s
  somewhere p S s h = record { place = p; session = S; stands = h }

  -- Out of the loop: by `break`, or in the model for lack of fuel, but by no exception.
  abbrev pub Out : Exit → AgentSystem W → Type 0
  Out broke s = Somewhere s
  Out hung s = Somewhere s
  Out threw s = ⊥

  module _ (p : Phase) (S : Text) where
    pub lock-Stands :
        {Y : Exit → AgentSystem W → Type 0} → Triple (Standing p S) (lock W) (λ _. Standing p S) Y
    lock-Stands = Triple-schedule W (turn-KeptBy p S)

    pub pause-Stands : Triple (Standing p S) (sleep_delta W) (λ _. Standing p S) Out
    pause-Stands = Triple-sleep_delta W (turn-KeptBy p S)

    pub stop-Stands : Triple (Standing p S) (break_if_stopped W) (λ _. Standing p S) Out
    stop-Stands = Triple-break_if_stopped W (turn-KeptBy p S) (λ s h. somewhere p S s h)

    pub set_session-Stands :
        (S' : Text)
        → Fits p S'
        → Triple (Standing p S) (modify (set_session W S')) (λ _. Standing p S') Out
    unfolding modify set_session
    set_session-Stands S' f = record {
      at =
          λ s h. record { accepted = h.accepted; session_kept = refl; fits = f; traced = h.traced };
    }

    pub traced_or_break-Stands :
        (p' : Bool × W.Json → Phase) (r : Request)
        → ((a : Bool × W.Json) → sequence_next W p r a.0 a.1 ≡ some (p' a))
        → ((a : Bool × W.Json) → Fits (p' a) S)
        → Triple
            (Standing p S)
            (traced_or_break W (traced_as r) r)
            (λ json. Standing (p' (true, json)) S)
            Out
    traced_or_break-Stands p' r moves fits =
        Triple-traced_or_break W (turn-KeptBy p S) (λ a. At (p' a) S) (λ a. turn-KeptBy (p' a) S)
          (traced_as r) r (advance sequence_thread r p p' S moves fits)
          (λ json s h. somewhere (p' (false, json)) S s h)
