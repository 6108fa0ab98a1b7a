-- ===== src/Waits/Ends.antt =====
-- The wait for a call to be bridged, round by round.
use delfos.Prelude.{ℕ, zero, suc, ◌+◌, ◌*◌, ◌≤◌, ◌<◌, ◌≢◌, Bool, not, ltb, arith}
use delfos.Trace.{ns_per_ms}
use delfos.World.{World, Turn}
use delfos.Monad.{Exit, broke, threw, hung, Res, val, exit, M, pure, gets, modify}
use delfos.Monad.Triple.{
  Triple, Post, Triple-pure, Triple-leave, Triple-if, Triple-elim, Triple-branch, Triple-pre,
  Triple-fact, Triple-modify, ◌⟫◌,
}
use delfos.Workflow.State.{System, ask}
use delfos.Workflow.Schedule.{sleep_for}
use delfos.Cmn.Sequence.{polling_check_period, polling_check_max}
use delfos.Cmn.State.{tracking}
use delfos.Cmn.Call
use delfos.Desktop
use delfos.Waits.{IsClock, Late, Ticks, gets-Late}
use delfos.Waits.Turns.{schedule-Late, cmn_turn-Ticks}

-- The code is left by a value, by `break` or by an exception.
abbrev pub Ended : {S : Type 0} → Exit → S → Type 0
Ended broke s = Unit {0}
Ended threw s = Unit {0}
Ended hung s = ⊥

abbrev pub Any : {S : Type 0} → S → Type 0
Any s = Unit {0}

pub done : {S : Type 0} {P : S → Type 0} → Triple P (pure tt) (λ _. Any) Ended
done = Triple-pre (λ s h. tt) (Triple-pure {Q = λ _. Any} tt)

reading : {S A : Type 0} (f : S → A) → Triple (Any {S = S}) (gets f) (λ _. Any) Ended
unfolding gets
reading f = record { at = λ s h. tt }

pub not_hung : {S A : Type 0} (r : Res A) (s : S) → Post (λ _. Any) Ended r s → r ≢ exit hung
not_hung (val a) s h = λ e. absurd cc
not_hung (exit broke) s h = λ e. absurd cc
not_hung (exit threw) s h = λ e. absurd cc
not_hung (exit hung) s h = absurd h

-- The time by which a wait that began at `init_time` has been given up, and the rounds until then.
abbrev given_up : ℕ → ℕ
given_up init_time = init_time + (polling_check_max + polling_check_period) * ns_per_ms

abbrev pub wait_rounds : ℕ
wait_rounds = 202

module _ {W : World} {time : W.State → ℕ} (clock : IsClock W time) {X : Type 0} where
  pub read_now :
      (T : ℕ)
      → Triple (Late time {X = X} T) (ask W W.now) (λ n s. Late time {X = X} T s × (T ≤ n)) Ended
  unfolding ask
  read_now T = record {
    at = λ s h.
        let (from, to) = clock.reads s.env in (omega (arith, h, from, to), omega (arith, h, from));
  }

  slept :
      (T ms : ℕ)
      → Triple
          (Late time {X = X} T)
          (ask W (λ e. (tt, W.sleep ms e)))
          (λ _. Late time (T + ms * ns_per_ms))
          Ended
  unfolding ask
  slept T ms = record { at = λ s h. omega (arith, h, clock.sleeps ms s.env) }

  pub began : Triple (Any {S = System W X}) (ask W W.now) (λ n. Late time n) Ended
  unfolding ask
  began = record { at = λ s h. (clock.reads s.env).1 }

module _ {W : World} {time : W.State → ℕ} (clock : IsClock W time) {X : Type 0}
    {turn : Turn W.Http → M (System W X) (Unit {0})}
    (ticks : (T : ℕ) (t : Turn W.Http) → Ticks time T (turn t)) where
  pub sleep_for-Late :
      (T ms : ℕ)
      → Triple (Late time T) (sleep_for W turn ms) (λ _. Late time (T + ms * ns_per_ms)) Ended
  unfolding sleep_for
  sleep_for-Late T ms =
      slept clock T ms ⟫ λ _. schedule-Late clock (T + ms * ns_per_ms) (ticks (T + ms * ns_per_ms))

  -- Each round that goes on sleeps, and the last of them wakes when the wait is given up.
  poll-Ended :
      (call_bridged : X → Bool) (init_time T fuel : ℕ)
      → T ≤ given_up init_time
      → given_up init_time < T + fuel * (polling_check_period * ns_per_ms)
      → Triple (Late time T) (Desktop.poll W turn call_bridged init_time fuel) (λ _. Any) Ended
  unfolding Desktop.poll
  poll-Ended call_bridged init_time T zero early enough = absurd (omega arith)
  poll-Ended call_bridged init_time T (suc fuel) early enough =
      schedule-Late clock T (ticks T) ⟫ λ _.
      gets-Late clock T (λ s. call_bridged s.own) ⟫ λ bridged. Triple-elim bridged done (
        read_now clock T ⟫ λ now. Triple-fact λ later.
          Triple-branch (ltb (init_time + polling_check_max * ns_per_ms) now) (λ _. done)
            (λ before. sleep_for-Late T polling_check_period ⟫ λ _.
              poll-Ended call_bridged init_time (T + polling_check_period * ns_per_ms) fuel
                (ground (arith, later, before)) (ground (arith, enough))))

  pub wait-Ended :
      (call_bridged : X → Bool) (clear_call : X → X) (fuel : ℕ)
      → wait_rounds ≤ fuel
      → Triple Any (Desktop.wait_bridged W turn call_bridged clear_call fuel) (λ _. Any) Ended
  unfolding Desktop.wait_bridged
  wait-Ended call_bridged clear_call fuel enough = began clock ⟫ λ init_time.
      poll-Ended call_bridged init_time init_time fuel (omega arith) (omega (arith, enough)) ⟫ λ _.
      reading (λ s. call_bridged s.own) ⟫ λ bridged.
      Triple-if (not bridged) (λ _. Triple-leave broke (λ s h. tt)) (λ _. done) ⟫ λ _.
      Triple-modify _ (λ s h. tt)

module _ {W : World} {time : W.State → ℕ} (clock : IsClock W time) where
  cmn_poll-Ended :
      (init_time T fuel : ℕ)
      → T ≤ given_up init_time
      → given_up init_time < T + fuel * (polling_check_period * ns_per_ms)
      → Triple (Late time T) (Call.poll W init_time fuel) (λ _. Any) Ended
  unfolding Call.poll
  cmn_poll-Ended init_time T zero early enough = absurd (omega arith)
  cmn_poll-Ended init_time T (suc fuel) early enough =
      schedule-Late clock T (cmn_turn-Ticks clock T) ⟫ λ _.
      gets-Late clock T (λ s. s.own.call_bridged) ⟫ λ bridged. Triple-elim bridged done (
        read_now clock T ⟫ λ now. Triple-fact λ later.
          Triple-branch (ltb (init_time + polling_check_max * ns_per_ms) now) (λ _. done)
            (λ before. sleep_for-Late clock (cmn_turn-Ticks clock) T polling_check_period ⟫ λ _.
              cmn_poll-Ended init_time (T + polling_check_period * ns_per_ms) fuel
                (ground (arith, later, before)) (ground (arith, enough))))

  pub cmn_wait-Ended :
      (fuel : ℕ) → wait_rounds ≤ fuel → Triple Any (Call.wait_bridged W fuel) (λ _. Any) Ended
  unfolding Call.wait_bridged tracking modify
  cmn_wait-Ended fuel enough = began clock ⟫ λ init_time.
      cmn_poll-Ended init_time init_time fuel (omega arith) (omega (arith, enough)) ⟫ λ _.
      reading (λ s. s.own.call_bridged) ⟫ λ bridged.
      Triple-if (not bridged) (λ _. Triple-leave broke (λ s h. tt)) (λ _. done) ⟫ λ _. record {
        at = λ s h. tt;
      }
