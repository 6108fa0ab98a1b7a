-- ===== src/Waits/Rounds.antt =====
-- The rounds of the loops in which a workflow waits.
use delfos.Prelude.{ℕ, zero, suc, ◌+◌, ◌*◌, ◌≤◌, ◌<◌, ◌≢◌, Text, ltb, arith}
use delfos.Trace.{ns_per_ms}
use delfos.World.{World, Turn}
use delfos.Monad.{hung, exit}
use delfos.Monad.Triple.{Triple, Triple-pure, Triple-branch, Triple-elim, Triple-fact, ◌⟫◌}
use delfos.Workflow.Buckets.{get_branch_guid}
use delfos.Desktop
use delfos.Desktop.{Staff, lead_found}
use delfos.Expired
use delfos.Inbound
use delfos.Iv
use delfos.Scheduled
use delfos.Waits.{IsClock, Late, Ticks, ask-Late}
use delfos.Waits.Turns.{schedule-Late, inbound_turn-Ticks, iv_turn-Ticks, scheduled_turn-Ticks}
use delfos.Waits.Ends.{
  Ended, Any, done, not_hung, began, read_now, sleep_for-Late, wait-Ended, wait_rounds,
}
use delfos.Waits.Calm.{Calm, ask-Any, gets-Any, modify-Any, schedule-Any, asked-Any}
use delfos.Waits.Desks.{
  phone-Ended, tracking-Ended, stop-Ended, pause-Ended, getvateams-Ended, login-Ended,
  change_status-Ended, check_vateams-Ended, get_availability-Ended, open_session-Ended,
  capture_lead-Ended, set_result-Ended, logout-Ended,
}

module _ {W : World} {time : W.State → ℕ} (clock : IsClock W time) where
  quiet_turn : (T : ℕ) (t : Turn W.Http) → Ticks time T (Expired.turn W t)
  unfolding Expired.turn
  quiet_turn T t = Triple-pure tt

  -- The rounds of three seconds, until after a minute.
  wait_period-Ended :
      (init_time T fuel : ℕ)
      → T ≤ init_time + 63_000 * ns_per_ms
      → init_time + 63_000 * ns_per_ms < T + fuel * (3_000 * ns_per_ms)
      → Triple (Late time T) (Expired.wait_period W init_time fuel) (λ _. Any) Ended
  unfolding Expired.wait_period
  wait_period-Ended init_time T zero early enough = absurd (omega arith)
  wait_period-Ended init_time T (suc fuel) early enough =
      schedule-Late clock T (quiet_turn T) ⟫ λ _.
      ask-Late clock T W.can_continue clock.goes_on ⟫ λ go_on.
      Triple-elim go_on
        (read_now clock T ⟫ λ now. Triple-fact λ later.
          Triple-branch (ltb (init_time + 60 * Expired.ns_per_second) now) (λ _. done)
            (λ before. sleep_for-Late clock quiet_turn T 3_000 ⟫ λ _.
              wait_period-Ended init_time (T + 3_000 * ns_per_ms) fuel
                (ground (arith, later, before)) (ground (arith, enough))))
        done

  module _ (fuel : ℕ) (enough : wait_rounds ≤ fuel) where
    inbound_body-Ended : (a : Staff) → Calm Ended (Inbound.body W fuel a)
    unfolding Inbound.body Inbound.desktop Inbound.talk Inbound.call_in get_branch_guid
    inbound_body-Ended a =
        (stop ⟫ λ _. pause ⟫ λ _. getvateams-Ended (Inbound.turn W) _ _ ⟫ λ _. pause ⟫ λ _.
        stop ⟫ λ _. login-Ended (Inbound.turn W) (Inbound.set_session W) _ _ ⟫ λ session.
        pause ⟫ λ _. stop ⟫ λ _. change_status-Ended (Inbound.turn W) _ _ _ ⟫ λ _. pause ⟫ λ _.
        stop ⟫ λ _. check_vateams-Ended (Inbound.turn W) _ _ _ ⟫ λ _. Triple-pure _ ⟫ λ branch.
        get_availability-Ended (Inbound.turn W) branch ⟫ λ _.
        pause ⟫ λ _. stop ⟫ λ _. Triple-pure _)
        ⟫ λ session.
            (tracking-Ended (λ own. own.tracker) (Inbound.set_tracker W) _ ⟫ λ _.
            phone-Ended ⟫ λ phone.
            tracking-Ended (λ own. own.tracker) (Inbound.set_tracker W) _ ⟫ λ _. ask-Any _)
            ⟫ λ _. wait-Ended clock (inbound_turn-Ticks clock) _ _ fuel enough ⟫ λ _.
                open_session-Ended (Inbound.turn W) _ _ _ ⟫ λ json.
                capture_lead-Ended (Inbound.turn W) _ _ ⟫ λ lead. pause ⟫ λ _. stop ⟫ λ _.
                set_result-Ended (Inbound.turn W) _ lead ⟫ λ _.
                pause ⟫ λ _. stop ⟫ λ _. logout-Ended (Inbound.turn W) _ _ _
      where
        stop : Calm Ended (Desktop.break_if_stopped W (Inbound.turn W))
        stop = stop-Ended (Inbound.turn W)

        pause : Calm Ended (Desktop.sleep_delta W (Inbound.turn W))
        pause = pause-Ended (Inbound.turn W)

    iv_body-Ended : (a : Staff) → Calm Ended (Iv.body W fuel a)
    unfolding Iv.body Iv.desktop Iv.talk Iv.new_pin Iv.call_iv get_branch_guid
    iv_body-Ended a =
        (stop ⟫ λ _. pause ⟫ λ _. getvateams-Ended (Iv.turn W) _ _ ⟫ λ _. pause ⟫ λ _. stop ⟫ λ _.
        login-Ended (Iv.turn W) (Iv.set_session W) _ _ ⟫ λ session. pause ⟫ λ _. stop ⟫ λ _.
        change_status-Ended (Iv.turn W) _ _ _ ⟫ λ _. pause ⟫ λ _. stop ⟫ λ _.
        check_vateams-Ended (Iv.turn W) _ _ _ ⟫ λ _. Triple-pure _ ⟫ λ branch.
        get_availability-Ended (Iv.turn W) branch ⟫ λ _. pause ⟫ λ _. stop ⟫ λ _. Triple-pure _)
        ⟫ λ (session, branch).
            (asked-Any (Iv.turn W) (λ s. tt) _ _ ⟫ λ json.
            schedule-Any (Iv.turn W) ⟫ λ _. modify-Any _ ⟫ λ _. gets-Any (λ s. s.own.pin))
            ⟫ λ pin. pause ⟫ λ _. stop ⟫ λ _.
                (tracking-Ended (λ own. own.tracker) (Iv.set_tracker W) _ ⟫ λ _.
                phone-Ended ⟫ λ phone.
                tracking-Ended (λ own. own.tracker) (Iv.set_tracker W) _ ⟫ λ _. ask-Any _)
                ⟫ λ _. wait-Ended clock (iv_turn-Ticks clock) _ _ fuel enough ⟫ λ _.
                    open_session-Ended (Iv.turn W) _ _ _ ⟫ λ json.
                    capture_lead-Ended (Iv.turn W) _ _ ⟫ λ lead. pause ⟫ λ _. stop ⟫ λ _.
                    set_result-Ended (Iv.turn W) _ lead ⟫ λ _.
                    pause ⟫ λ _. stop ⟫ λ _. logout-Ended (Iv.turn W) _ _ _
      where
        stop : Calm Ended (Desktop.break_if_stopped W (Iv.turn W))
        stop = stop-Ended (Iv.turn W)

        pause : Calm Ended (Desktop.sleep_delta W (Iv.turn W))
        pause = pause-Ended (Iv.turn W)

    scheduled_body-Ended : (a : Staff × Text) → Calm Ended (Scheduled.body W fuel a)
    unfolding Scheduled.body Scheduled.desktop Scheduled.schedule_lead Scheduled.talk
    scheduled_body-Ended (a, branch) =
        (stop ⟫ λ _. pause ⟫ λ _.
        (ask-Any W.new_guid ⟫ λ metadata. phone-Ended ⟫ λ phone.
        tracking-Ended (λ own. own.tracker) (Scheduled.set_tracker W) _ ⟫ λ _.
        ask-Any W.now ⟫ λ now. gets-Any (λ s. s.seed_guid) ⟫ λ seed.
        asked-Any (Scheduled.turn W) (λ s. tt) _ _ ⟫ λ _. done)
        ⟫ λ _. pause ⟫ λ _. stop ⟫ λ _. getvateams-Ended (Scheduled.turn W) _ _ ⟫ λ _. pause ⟫ λ _.
            stop ⟫ λ _. login-Ended (Scheduled.turn W) (Scheduled.set_session W) _ _ ⟫ λ session.
            pause ⟫ λ _. stop ⟫ λ _. check_vateams-Ended (Scheduled.turn W) _ _ _ ⟫ λ _.
            pause ⟫ λ _. stop ⟫ λ _. change_status-Ended (Scheduled.turn W) _ _ _ ⟫ λ _.
            pause ⟫ λ _.
            stop ⟫ λ _. change_status-Ended (Scheduled.turn W) _ _ _ ⟫ λ _. Triple-pure _)
        ⟫ λ session. tracking-Ended (λ own. own.tracker) (Scheduled.set_tracker W) _ ⟫ λ _.
            wait-Ended clock (scheduled_turn-Ticks clock) _ _ fuel enough ⟫ λ _.
            open_session-Ended (Scheduled.turn W) _ _ _ ⟫ λ json.
            capture_lead-Ended (Scheduled.turn W) _ _ ⟫ λ lead. pause ⟫ λ _. stop ⟫ λ _.
            set_result-Ended (Scheduled.turn W) _ lead ⟫ λ _.
            pause ⟫ λ _. stop ⟫ λ _. logout-Ended (Scheduled.turn W) _ _ _
      where
        stop : Calm Ended (Desktop.break_if_stopped W (Scheduled.turn W))
        stop = stop-Ended (Scheduled.turn W)

        pause : Calm Ended (Desktop.sleep_delta W (Scheduled.turn W))
        pause = pause-Ended (Scheduled.turn W)

    expired_body-Ended : (branch : Text) → Calm Ended (Expired.body W fuel branch)
    unfolding Expired.body Expired.schedule_lead
    expired_body-Ended branch = stop-Ended (Expired.turn W) ⟫ λ _.
        pause-Ended (Expired.turn W) ⟫ λ _.
        (ask-Any W.new_guid ⟫ λ metadata. phone-Ended ⟫ λ phone. modify-Any _ ⟫ λ _.
        ask-Any W.now ⟫ λ now.
        gets-Any (λ s. s.seed_guid) ⟫ λ seed. asked-Any (Expired.turn W) (λ s. tt) _ _ ⟫ λ _. done)
        ⟫ λ _. began clock ⟫ λ init_time.
            wait_period-Ended init_time init_time fuel (omega arith) (omega (arith, enough))

    -- If the clock is not set back and a sleep lasts as long as it was asked to, then every round of
    -- the loops of InboundWorkflow, IVWorkflow, ScheduledWorkflow and ExpiredWorkflow ends, from any
    -- state, whatever the servers answer and the other threads do: 202 rounds are enough for each
    -- wait within it.
    pub rounds_end :
        ((a : Staff) (s : Inbound.InboundSystem W) → (Inbound.body W fuel a s).0 ≢ exit hung)
        × ((a : Staff) (s : Iv.IvSystem W) → (Iv.body W fuel a s).0 ≢ exit hung)
        × ((a : Staff × Text) (s : Scheduled.ScheduledSystem W)
            → (Scheduled.body W fuel a s).0 ≢ exit hung)
        × ((branch : Text) (s : Expired.ExpiredSystem W)
            → (Expired.body W fuel branch s).0 ≢ exit hung)
    rounds_end = (
      λ a s. not_hung _ _ ((inbound_body-Ended a).at s tt),
      λ a s. not_hung _ _ ((iv_body-Ended a).at s tt),
      λ a s. not_hung _ _ ((scheduled_body-Ended a).at s tt),
      λ branch s. not_hung _ _ ((expired_body-Ended branch).at s tt),
    )
