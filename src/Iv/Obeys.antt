-- ===== src/Iv/Obeys.antt =====
-- What the other threads of an `IVWorkflow` keep of its place in the protocol.
use delfos.Prelude.{◌≡◌, refl, ap, false, not, Text, is_empty, arith}
use delfos.World.{World, Turn, alive_turn, event_turn, request_turn}
use delfos.World.Requests.{iv_flag}
use delfos.Monad.{broke}
use delfos.Monad.Triple.{Triple-pure, Triple-if, Triple-leave_unless, Triple-read, ◌⟫◌}
use delfos.Workflow.Rules.{Doing, KeptBy, During, Triple-traced_alive}
use delfos.Workflow.AliveRules.{Quiet, alive_step-Quiet}
use delfos.Twilio.Incoming.{iv_event, iv_request}
use delfos.Protocol.{Place, At, says}
use delfos.Desktop.Phases.{Words, says-Fits, is_known_refl, is_known-kept}
use delfos.Desktop.Speaks.{speak-Quiet, tracking-Quiet}
use delfos.Iv.{flag, alive_round, twilio_event, twilio_request, turn, set_tracker}
use delfos.Iv.Protocol.{account}

module _ (W : World) where
  module _ (p : Place (account W)) (v : Words) (c : Doing W.Json) where
    flag-Quiet : is_empty v.third ≡ false → Quiet W (At (account W) p v) c (flag W v.third)
    unfolding flag
    flag-Quiet h =
        Triple-traced_alive W (At (account W) p v) (λ _. At (account W) p v) c _ (iv_flag v.third)
          (says (account W) _ p v (λ x f.
            rw (is_known-kept p.third v.third v.third f.thirds (is_known_refl v.third h)) refl))
        ⟫ λ answer.
            Triple-leave_unless (λ _. During W (At (account W) p v) c) answer.0 broke (λ s h. h)

    alive_round-Quiet : (g : Text) → Quiet W (At (account W) p v) c (alive_round W g)
    unfolding alive_round
    alive_round-Quiet g =
        Triple-read _ (λ s. s.own.session_guid) v.session (λ s h. ap (λ w. w.session) h.0.kept)
          (Triple-read _ (λ s. s.own.lead_guid) v.lead (λ s h. ap (λ w. w.lead) h.0.kept)
            (Triple-read _ (λ s. s.own.pin) v.third (λ s h. ap (λ w. w.third) h.0.kept)
              (Triple-if (is_empty v.session) (λ _. Triple-pure tt)
                (λ h.
                  speak-Quiet (account W) p v c g v.session v.lead v.lead h
                    (λ r e x f. rw (says-Fits f r e) refl)
                  ⟫ λ _.
                      Triple-if (not (is_empty v.third)) (λ h. flag-Quiet (ground arith))
                        (λ _. Triple-pure tt)))))

    turn-Quiet : (t : Turn W.Http) → Quiet W (At (account W) p v) c (turn W t)
    unfolding turn twilio_event twilio_request
    turn-Quiet alive_turn =
        alive_step-Quiet W (At (account W) p v) c (alive_round W) alive_round-Quiet
    turn-Quiet (event_turn http) =
        tracking-Quiet (account W) p v c (λ own. own.tracker) (set_tracker W) (λ t own. refl)
          (iv_event W http)
        ⟫ λ _. Triple-pure tt
    turn-Quiet (request_turn http response) =
        tracking-Quiet (account W) p v c (λ own. own.tracker) (set_tracker W) (λ t own. refl)
          (iv_request W http response)
        ⟫ λ _. Triple-pure tt

  -- Whatever the other threads do, the workflow stands where it stood.
  pub quiet : (p : Place (account W)) (v : Words) → KeptBy W (turn W) (At (account W) p v)
  quiet p v = record { kept = λ c t. turn-Quiet p v c t }
