-- ===== src/Delfosnar/Obeys.antt =====
-- What the alive thread of a `delfosnarWorkflow` keeps of its place in the protocol.
use delfos.Prelude.{◌≡◌, ℕ, refl, ap, false, not, ◌&&◌, ◌==◌, Text, is_empty, arith}
use delfos.World.{World, Turn, alive_turn, event_turn, request_turn}
use delfos.World.Requests.{read_session_user}
use delfos.Monad.{threw}
use delfos.Monad.Triple.{Triple-pure, Triple-if, Triple-read, Triple-leave_unless, ◌⟫◌}
use delfos.Workflow.Rules.{Doing, KeptBy, During, Triple-traced_alive}
use delfos.Workflow.AliveRules.{Quiet, Quiet-gets, alive_step-Quiet}
use delfos.Protocol.{Place, At, says}
use delfos.Desktop.Phases.{Words, is_known_refl, is_known-kept}
use delfos.Delfosnar.State.{Own, gari_read_room, read_as, alive_round, turn}
use delfos.Delfosnar.Protocol.{account}

module _ (W : World) where
  module _ (p : Place (account W)) (v : Words) (c : Doing W.Json) where
    gari_read_room-Quiet :
        is_empty v.lead ≡ false → (u : ℕ) → Quiet W (At (account W) p v) c (gari_read_room W u)
    unfolding gari_read_room
    gari_read_room-Quiet h u =
        Triple-read _ (λ s. s.own.delfosnar_guid) v.lead (λ s h. ap (λ w. w.lead) h.0.kept)
          (Triple-traced_alive W (At (account W) p v) (λ _. At (account W) p v) c _
              (read_session_user v.lead u)
              (says (account W) _ p v (λ x f.
                rw (is_known-kept p.lead v.lead v.lead f.leads (is_known_refl v.lead h)) refl))
            ⟫ λ answer.
                Triple-leave_unless (λ _. During W (At (account W) p v) c) answer.0 threw
                  (λ s h. h))

    read_as-Quiet : (user_guid : Own → ℕ) → Quiet W (At (account W) p v) c (read_as W user_guid)
    unfolding read_as
    read_as-Quiet user_guid =
        Triple-read _ (λ s. s.own.delfosnar_guid) v.lead (λ s h. ap (λ w. w.lead) h.0.kept)
          (Quiet-gets W (At (account W) p v) c (λ s. user_guid s.own) ⟫ λ guid.
            Triple-if (not (is_empty v.lead) && not (guid == 0))
              (λ h. gari_read_room-Quiet (ground arith) guid) (λ _. Triple-pure tt))

    alive_round-Quiet : (g : Text) → Quiet W (At (account W) p v) c (alive_round W g)
    unfolding alive_round
    alive_round-Quiet g = Quiet-gets W (At (account W) p v) c (λ s. s.own.session_guid) ⟫ λ session.
        Triple-if (is_empty session) (λ _. Triple-pure tt)
          (λ _. read_as-Quiet (λ own. own.gari_presenter_guid) ⟫ λ _.
            read_as-Quiet (λ own. own.gari_viewer_guid))

    turn-Quiet : (t : Turn W.Http) → Quiet W (At (account W) p v) c (turn W t)
    unfolding turn
    turn-Quiet alive_turn =
        alive_step-Quiet W (At (account W) p v) c (alive_round W) alive_round-Quiet
    turn-Quiet (event_turn http) = Triple-pure tt
    turn-Quiet (request_turn http response) = Triple-pure tt

  -- Whatever the other threads do, the workflow stands where it stood.
  pub quiet : (p : Place (account W)) (v : Words) → KeptBy W (turn W) (At (account W) p v)
  quiet p v = record { kept = λ c t. turn-Quiet p v c t }
