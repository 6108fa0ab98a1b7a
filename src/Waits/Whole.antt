-- ===== src/Waits/Whole.antt =====
-- Whole runs of `CMNWorkflow::sequence`.
use delfos.Prelude.{ℕ, ◌≤◌, ◌≢◌, not, ◌&&◌, List, [], ◌∷◌, Text, is_empty, ltb, length}
use delfos.World.{World}
use delfos.Monad.{broke, threw, hung, Res, val, exit, modify}
use delfos.Monad.Triple.{Triple, Post, Triple-pure, Triple-leave, Triple-if, Triple-elim, ◌⟫◌}
use delfos.Workflow.Buckets.{get_agent_guid, get_vateam_guids, get_vacenter_guids, get_branch_guid}
use delfos.Workflow.Calls.{generate_random_phone}
use delfos.Workflow.Schedule
use delfos.Workflow.Run
use delfos.Workflow.Run.{Outcome, caught, returned, terminated, unfinished}
use delfos.Twilio.{Tracker}
use delfos.Cmn.State.{CmnSystem, tracking}
use delfos.Cmn.Alive.{turn}
use delfos.Cmn.Sequence
use delfos.Cmn.Sequence.{Agent}
use delfos.Cmn.Call
use delfos.Waits.{IsClock}
use delfos.Waits.Ends.{Ended, Any, done, wait_rounds, cmn_wait-Ended}
use delfos.Waits.Calm.{
  Thrown, Calm, ask-Any, asked-Any, gets-Any, leave_if-Any, modify-Any, pause-Any, schedule-Any,
  stop-Any, traced-Any,
}

module _ (W : World) where
  prepare-Thrown : Calm Thrown (Sequence.prepare W)
  unfolding Sequence.prepare Run.increment_barrier Run.gari_create_seed Run.spawn_alive
      get_agent_guid get_vateam_guids get_vacenter_guids
  prepare-Thrown = modify-Any _ ⟫ λ _. gets-Any (λ s. s.agent_position) ⟫ λ i.
      Triple-if (not (is_empty W.bucket.agents) && ltb i (length W.bucket.agents))
        (λ _. Triple-pure _) (λ _. Triple-leave threw (λ s h. tt))
      ⟫ λ guid.
          Triple-if (is_empty W.bucket.relations) (λ _. Triple-leave threw (λ s h. tt))
            (λ _. Triple-pure _)
          ⟫ λ teams. Triple-pure _ ⟫ λ centers.
              (ask-Any W.new_guid ⟫ λ seed. modify-Any _ ⟫ λ _.
              traced-Any (turn W) _ _ ⟫ λ answer. leave_if-Any (not answer.0) threw (λ s. tt))
              ⟫ λ _. modify-Any _ ⟫ λ _. Triple-pure _

  getvateams-Ended : (guid : Text) (cs : List Text) → Calm Ended (Sequence.getvateams W guid cs)
  unfolding Sequence.getvateams
  getvateams-Ended guid [] = Triple-pure tt
  getvateams-Ended guid (c ∷ cs) = traced-Any (turn W) _ _ ⟫ λ answer.
      Triple-elim answer.0 (getvateams-Ended guid cs) (Triple-pure tt)

  check_vateams-Ended :
      (guid session : Text) (ts : List Text) → Calm Ended (Sequence.check_vateams W guid session ts)
  unfolding Sequence.check_vateams
  check_vateams-Ended guid session [] = Triple-pure tt
  check_vateams-Ended guid session (t ∷ ts) =
      asked-Any (turn W) (λ s. tt) _ _ ⟫ λ _. check_vateams-Ended guid session ts

  login-Ended : (guid : Text) → Calm Ended (Sequence.login W guid)
  unfolding Sequence.login
  login-Ended guid = asked-Any (turn W) (λ s. tt) _ _ ⟫ λ json.
      leave_if-Any _ broke (λ s. tt) ⟫ λ _.
      schedule-Any (turn W) ⟫ λ _. modify-Any _ ⟫ λ _. gets-Any (λ s. s.own.session_guid)

  desktop-Ended : (a : Agent) → Calm Ended (Call.desktop W a)
  unfolding Call.desktop Sequence.change_status Sequence.get_availability get_branch_guid
  desktop-Ended a = stop ⟫ λ _. pause-Any (turn W) ⟫ λ _.
      getvateams-Ended a.agent_guid a.agent_vacenters ⟫ λ _. pause-Any (turn W) ⟫ λ _. stop ⟫ λ _.
      login-Ended a.agent_guid ⟫ λ session. pause-Any (turn W) ⟫ λ _. stop ⟫ λ _.
      (asked-Any (turn W) (λ s. tt) _ _ ⟫ λ _. Triple-pure tt) ⟫ λ _. pause-Any (turn W) ⟫ λ _.
      stop ⟫ λ _. check_vateams-Ended a.agent_guid session a.agent_vateams ⟫ λ _.
      (Triple-pure _ ⟫ λ branch. asked-Any (turn W) (λ s. tt) _ _ ⟫ λ _. Triple-pure branch)
      ⟫ λ branch. pause-Any (turn W) ⟫ λ _. stop ⟫ λ _. Triple-pure _
    where
      stop : Calm Ended (Schedule.break_if_stopped W (turn W))
      stop = stop-Any (turn W) (λ s. tt)

  tracking-Any : (f : Tracker W.Call → Tracker W.Call) → Calm Ended (tracking W (modify f))
  unfolding tracking modify
  tracking-Any f = record { at = λ s h. tt }

  request_lead-Ended : (branch : Text) → Calm Ended (Call.request_lead W branch)
  unfolding Call.request_lead Call.capture_lead generate_random_phone
  request_lead-Ended branch = tracking-Any _ ⟫ λ _. ask-Any W.new_guid ⟫ λ metadata.
      (ask-Any W.draw_phone ⟫ λ drawn. Triple-pure _) ⟫ λ phone. tracking-Any _ ⟫ λ _.
      gets-Any (λ s. s.seed_guid) ⟫ λ seed. asked-Any (turn W) (λ s. tt) _ _ ⟫ λ json.
      schedule-Any (turn W) ⟫ λ _. modify-Any _ ⟫ λ _. gets-Any (λ s. s.own.lead_guid) ⟫ λ lead.
      leave_if-Any (is_empty lead) broke (λ s. tt) ⟫ λ _. Triple-pure lead

  module _ {time : W.State → ℕ} (clock : IsClock W time) (fuel : ℕ)
      (enough : wait_rounds ≤ fuel) where
    -- The loop's body is always left, and not for lack of fuel.
    body-Ended : (a : Agent) → Triple Any (Call.body W fuel a) (λ _ _. ⊥) Ended
    unfolding Call.body Call.talk Call.open_session Call.set_result Call.logout Run.gari_update_room
    body-Ended a = desktop-Ended a ⟫ λ (session, branch). request_lead-Ended branch ⟫ λ lead.
        pause ⟫ λ _. stop ⟫ λ _. cmn_wait-Ended clock fuel enough ⟫ λ _.
        (gets-Any (λ s. s.own.lead_customer_phone) ⟫ λ phone.
        gets-Any (λ s. s.own.session_guid) ⟫ λ session.
        asked-Any (turn W) (λ s. tt) _ _ ⟫ λ _. done)
        ⟫ λ _. pause ⟫ λ _. stop ⟫ λ _.
            (gets-Any (λ s. s.gari_user_guid) ⟫ λ user.
            traced-Any (turn W) _ _ ⟫ λ answer. Triple-pure answer.0)
            ⟫ λ _. pause ⟫ λ _. stop ⟫ λ _.
                (schedule-Any (turn W) ⟫ λ _. modify-Any _ ⟫ λ _.
                modify-Any _ ⟫ λ _. asked-Any (turn W) (λ s. tt) _ _ ⟫ λ _. done)
                ⟫ λ _. pause ⟫ λ _. stop ⟫ λ _.
                    (schedule-Any (turn W) ⟫ λ _.
                    modify-Any _ ⟫ λ _. asked-Any (turn W) (λ s. tt) _ _ ⟫ λ _. done)
                    ⟫ λ _. Triple-leave broke (λ s h. tt)
      where
        stop : Calm Ended (Schedule.break_if_stopped W (turn W))
        stop = stop-Any (turn W) (λ s. tt)

        pause : Calm Ended (Schedule.sleep_delta W (turn W))
        pause = pause-Any (turn W)

    returned_ends : returned ≢ unfinished
    returned_ends e = cc

    caught_ends : caught ≢ unfinished
    caught_ends e = cc

    terminated_ends : terminated ≢ unfinished
    terminated_ends e = cc

    looped-Ended :
        (r : Res Agent) (s : CmnSystem W)
        → Post (λ _. Any) Thrown r s
        → (Run.looped W (turn W) 1 (Call.body W fuel) r s).0 ≢ unfinished
    unfolding Run.looped Run.forever Run.wind_up
    looped-Ended (exit threw) s h = λ e. absurd cc
    looped-Ended (exit broke) s h = absurd h
    looped-Ended (exit hung) s h = absurd h
    looped-Ended (val a) s h =
        wound _ _ (((body-Ended a) ⟫ λ _. Triple-leave {P = λ _. ⊥} hung (λ s h. absurd h)).at s tt)
      where
        wound :
            (r : Res (Unit {0})) (s : CmnSystem W)
            → Post (λ _ _. ⊥) Ended r s
            → (Run.wind_up W (turn W) r s).0 ≢ unfinished
        wound (val x) s h = absurd h
        wound (exit broke) s h =
            Run.destroy_alive-cases W (turn W) (λ o _. o ≢ unfinished) _ _ _ returned_ends
              terminated_ends
        wound (exit threw) s h =
            Run.destroy_alive-cases W (turn W) (λ o _. o ≢ unfinished) _ _ _ caught_ends
              terminated_ends
        wound (exit hung) s h = absurd h

    -- If the clock is not set back and a sleep lasts as long as it was asked to, then a run of
    -- CMNWorkflow's `sequence`, from any state and whatever the servers answer and the other threads
    -- do, ends by a return or an exception, 202 rounds being enough for its wait.
    pub sequence_ends : (s : CmnSystem W) → (Call.sequence W fuel s).0 ≢ unfinished
    unfolding Call.sequence Run.run
    sequence_ends s = looped-Ended _ _ (prepare-Thrown.at _ tt)
