-- ===== src/Inbound/Obeys.antt =====
-- What the other threads of an `InboundWorkflow` keep of its place in the protocol.
use delfos.Prelude.{refl, ap, Text, is_empty}
use delfos.World.{World, Turn, alive_turn, event_turn, request_turn}
use delfos.Monad.Triple.{Triple-pure, Triple-if, Triple-read, ◌⟫◌}
use delfos.Workflow.Rules.{Doing, KeptBy}
use delfos.Workflow.AliveRules.{Quiet, alive_step-Quiet}
use delfos.Twilio.Incoming.{inbound_event, inbound_request}
use delfos.Protocol.{Place, At}
use delfos.Desktop.Phases.{Words, says-Fits}
use delfos.Desktop.Speaks.{speak-Quiet, tracking-Quiet}
use delfos.Inbound.{alive_round, twilio_event, twilio_request, turn, set_tracker}
use delfos.Inbound.Protocol.{account}

module _ (W : World) where
  module _ (p : Place (account W)) (v : Words) (c : Doing W.Json) where
    alive_round-Quiet : (g : Text) → Quiet W (At (account W) p v) c (alive_round W g)
    unfolding alive_round
    alive_round-Quiet g =
        Triple-read _ (λ s. s.own.session_guid) v.session (λ s h. ap (λ w. w.session) h.0.kept)
          (Triple-read _ (λ s. s.own.lead_guid) v.lead (λ s h. ap (λ w. w.lead) h.0.kept)
            (Triple-if (is_empty v.session) (λ _. Triple-pure tt)
              (λ h.
                speak-Quiet (account W) p v c g v.session v.lead v.lead h
                  (λ r e x f. rw (says-Fits f r e)))))

    turn-Quiet : (t : Turn W.Http) → Quiet W (At (account W) p v) c (turn W t)
    unfolding turn twilio_event twilio_request
    turn-Quiet alive_turn =
        alive_step-Quiet W (At (account W) p v) c (alive_round W) alive_round-Quiet
    turn-Quiet (event_turn http) =
        tracking-Quiet (account W) p v c (λ own. own.tracker) (set_tracker W) (λ t own. refl)
          (inbound_event W http)
        ⟫ λ _. Triple-pure tt
    turn-Quiet (request_turn http response) =
        tracking-Quiet (account W) p v c (λ own. own.tracker) (set_tracker W) (λ t own. refl)
          (inbound_request W http)
        ⟫ λ _. Triple-pure tt

  -- Whatever the other threads do, the workflow stands where it stood.
  pub quiet : (p : Place (account W)) (v : Words) → KeptBy W (turn W) (At (account W) p v)
  quiet p v = record { kept = λ c t. turn-Quiet p v c t }
