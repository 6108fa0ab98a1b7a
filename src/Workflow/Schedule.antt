-- ===== src/Workflow/Schedule.antt =====
-- Where a workflow's thread lets the others go on. `turn` is what the derived class does then.
use delfos.Prelude.{ℕ, Bool, not, List, [], ◌∷◌, Text}
use delfos.World.{World, Turn}
use delfos.World.Requests.{Request, Event}
use delfos.Monad.{Res, val, exit, M, pure, gets, modify, leave_if, broke, contained, ◌>>=◌, ◌>>◌}
use delfos.Workflow.State.{
  System, sequence_thread, AliveThread, absent, starting, ended, joined, active, ask, perform,
}
use delfos.Workflow.Traces.{init_trace, end_trace}
use delfos.Workflow.Buckets.{get_agent_guid}

module _ (W : World) {X : Type 0} where
  set_alive : AliveThread → System W X → System W X
  set_alive a s = record s { alive = a }

  -- The handler of exceptions around the alive thread's loop: the thread ends.
  unfoldable pub handle : Res (Unit {0}) → System W X → Res (Unit {0}) × System W X
  unfolding set_alive
  handle (val a) s = (val tt, s)
  handle (exit e) s = (val tt, set_alive ended s)

  -- A round of the alive thread's loop.
  unfoldable pub live_round : (Text → M (System W X) (Unit {0})) → Text → M (System W X) (Unit {0})
  unfolding handle
  live_round round guid s = let (r, s') = round guid s in handle r s'

  -- It takes the agent's guid before its first round.
  unfoldable pub take_guid : M (System W X) (Unit {0})
  unfolding set_alive
  take_guid = do
    position ← gets (λ s. s.agent_position)
    guid ← get_agent_guid W position
    modify (set_alive (active guid))

  unfoldable pub live_on :
      (Text → M (System W X) (Unit {0})) → AliveThread → M (System W X) (Unit {0})
  live_on round absent = pure tt
  live_on round ended = pure tt
  live_on round joined = pure tt
  live_on round starting = take_guid
  live_on round (active guid) = live_round round guid

  -- The alive thread at the head of its loop, while it may continue.
  unfoldable pub alive_step : (Text → M (System W X) (Unit {0})) → M (System W X) (Unit {0})
  unfolding live_on
  alive_step round = do thread ← gets (λ s. s.alive); live_on round thread

  unfoldable pub run_turns :
      (Turn W.Http → M (System W X) (Unit {0})) → List (Turn W.Http) → M (System W X) (Unit {0})
  run_turns turn [] = pure tt
  run_turns turn (t ∷ ts) = do contained (turn t); run_turns turn ts

  module _ (turn : Turn W.Http → M (System W X) (Unit {0})) where
    unfoldable pub schedule : M (System W X) (Unit {0})
    unfolding run_turns
    schedule = do turns ← ask W W.others; run_turns turn turns

    -- `std::this_thread::sleep_for`
    unfoldable pub sleep_for : ℕ → M (System W X) (Unit {0})
    sleep_for ms = do ask W (λ e. (tt, W.sleep ms e)); schedule

    unfoldable pub sleep_delta : M (System W X) (Unit {0})
    sleep_delta = do delta ← ask W W.draw_delta; sleep_for delta

    -- `if (not _process_can_continue.load()) break;`
    unfoldable pub break_if_stopped : M (System W X) (Unit {0})
    break_if_stopped = do schedule; go_on ← ask W W.can_continue; leave_if (not go_on) broke

    -- A request of the sequence between its `init_trace` and `end_trace`.
    unfoldable pub traced : Event → Request → M (System W X) (Bool × W.Json)
    traced event r = do
      init_trace W event
      schedule
      answer ← perform W sequence_thread r
      schedule
      end_trace W answer.0 answer.1
      pure answer

    -- The same, where a failure leaves the loop.
    unfoldable pub traced_or_break : Event → Request → M (System W X) W.Json
    traced_or_break event r = do
      answer ← traced event r
      leave_if (not answer.0) broke
      pure answer.1
