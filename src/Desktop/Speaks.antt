-- ===== src/Desktop/Speaks.antt =====
-- What the other threads do to an agent's desktop at a place in a protocol.
use delfos.Prelude.{
  ◌≡◌, refl, ◌∙◌, Bool, true, false, not, some, Text, is_empty, if◌then◌else◌, arith,
}
use delfos.World.{World}
use delfos.World.Requests.{Request, alive, alive_lead, desktop_alive}
use delfos.Monad.{M}
use delfos.Monad.Triple.{Post-same, Triple-if, Triple-pure, ◌⟫◌}
use delfos.Workflow.State.{alive_thread}
use delfos.Workflow.Rules.{Doing, Recorded, During}
use delfos.Workflow.AliveRules.{Quiet, alive_lm-Quiet, alive_gari-Quiet}
use delfos.Twilio.{Tracker}
use delfos.Protocol.{Account, Place, At, says}
use delfos.Desktop.{tracking, speak}
use delfos.Desktop.Phases
use delfos.Desktop.Phases.{is_known_refl}

module _ {W : World} {X : Type 0} (a : Account W X) (p : Place a) (v : a.Words)
    (c : Doing W.Json) where
  -- The alive thread may ask `r` here.
  abbrev pub Allows : Request → Type 0
  Allows r = (x : Bool × W.Json) → a.Fits p v → a.machine.next alive_thread p r x.0 x.1 ≡ some p

  pub speak-Quiet :
      (g S L R : Text)
      → is_empty S ≡ false
      → ((r : Request) → Phases.says S L R r ≡ true → Allows r)
      → Quiet W (At a p v) c (speak W g S L R)
  unfolding speak
  speak-Quiet g S L R hs allows =
      alive_lm-Quiet W (At a p v) c g S L (says_alive (is_empty L) refl) ⟫ λ _.
      Triple-if (not (is_empty R))
        (λ h.
          let known = is_known_refl R (ground arith) in
          alive_gari-Quiet W (At a p v) c R (says a _ p v (allows _ known))
            (λ u. says a _ p v (allows _ known)))
        (λ _. Triple-pure tt)
    where
      says_alive :
          (b : Bool)
          → is_empty L ≡ b
          → Recorded W alive_thread desktop_alive
              (if b then alive g S else alive_lead g S L)
              (At a p v)
              (λ _. At a p v)
      says_alive true h = says a (alive g S) p v (allows _ (is_known_refl S hs))
      says_alive false h =
          says a (alive_lead g S L) p v (allows _ (rw (is_known_refl S hs, is_known_refl L h)))

  -- The call's fields may change at will.
  pub tracking-Quiet :
      {A : Type 0} (tracker : X → Tracker W.Call) (set_tracker : Tracker W.Call → X → X)
      → ((t : Tracker W.Call) (own : X) → a.words (set_tracker t own) ≡ a.words own)
      → (m : M (Tracker W.Call) A) → Quiet W (At a p v) c (tracking W tracker set_tracker m)
  unfolding tracking
  tracking-Quiet tracker set_tracker keeps m = record {
    at = λ s h. Post-same (During W (At a p v) c) (m (tracker s.own)).0 _ (
      record {
        accepted = h.0.accepted;
        kept = keeps _ s.own ∙ h.0.kept;
        fits = h.0.fits;
        traced = h.0.traced;
      },
      h.1,
    );
  }
