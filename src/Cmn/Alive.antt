-- ===== src/Cmn/Alive.antt =====
-- `alive_worker` and `twilio_event`: what the other threads do to a `CMNWorkflow`.
use delfos.Prelude.{Bool, not, Text, is_empty, if◌then◌else◌}
use delfos.World.{World, Turn, alive_turn, event_turn, request_turn}
use delfos.Monad.{M, pure, gets, when, ◌>>=◌, ◌>>◌}
use delfos.Workflow.Calls.{alive_lm, alive_gari}
use delfos.Workflow.Schedule.{alive_step}
use delfos.Twilio.{lead_event}
use delfos.Cmn.State.{CmnSystem, tracking}

module _ (W : World) where
  -- One round of the loop, which holds `_session_mutex`.
  unfoldable pub alive_round : Text → M (CmnSystem W) (Unit {0})
  alive_round agent_guid = do
    session_guid ← gets (λ s. s.own.session_guid)
    lead_guid ← gets (λ s. s.own.lead_guid)
    if is_empty session_guid then pure tt else (do
      alive_lm W agent_guid session_guid lead_guid
      when (not (is_empty lead_guid)) (alive_gari W lead_guid))

  unfoldable pub twilio_event : W.Http → M (CmnSystem W) Bool
  twilio_event http = tracking W (lead_event W http)

  -- `twilio_request` is that of `Workflow`, which does nothing.
  unfoldable pub turn : Turn W.Http → M (CmnSystem W) (Unit {0})
  unfolding twilio_event alive_round
  turn alive_turn = alive_step W (alive_round)
  turn (event_turn http) = do twilio_event http; pure tt
  turn (request_turn http response) = pure tt
