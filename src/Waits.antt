-- ===== src/Waits.antt =====
-- The waits for a call to be bridged, in Desktop and in Cmn.Call, under a clock that is not set back.
pub mod Turns
pub mod Ends
pub mod Calm
pub mod Desks
pub mod Rounds
pub mod Whole
use delfos.Prelude.{ℕ, ◌+◌, ◌*◌, ◌≤◌, ◌≡◌, refl, Bool, List, arith}
use delfos.Trace.{ns_per_ms}
use delfos.World.{World}
use delfos.World.Requests.{Request, Event}
use delfos.Monad.{Exit, M, gets, modify}
use delfos.Monad.Triple.{Triple, Triple-if, Triple-pure, ◌⟫◌}
use delfos.Workflow.State.{System, Thread, alive_thread, ask, perform, set_fields}
use delfos.Workflow.Traces.{new_trace, init_trace_alive, end_trace_alive, insert_node, traced_alive}

-- `time` is what the system clock shows: nothing sets it back, it is read while it goes on, and a
-- sleep lasts as long as it was asked to.
pub record IsClock (W : World) (time : W.State → ℕ) : Type 0 where
  pub reads : (e : W.State) → (time e ≤ (W.now e).0) × ((W.now e).0 ≤ time (W.now e).1)
  pub sleeps : (ms : ℕ) (e : W.State) → time e + ms * ns_per_ms ≤ time (W.sleep ms e)
  pub performs : (r : Request) (e : W.State) → time e ≤ time (W.perform r e).2
  pub takes_guid : (e : W.State) → time e ≤ time (W.new_guid e).1
  pub goes_on : (e : W.State) → time e ≤ time (W.can_continue e).1
  pub lets_others : (e : W.State) → time e ≤ time (W.others e).1

module _ {W : World} (time : W.State → ℕ) {X : Type 0} (T : ℕ) where
  -- It is `T` or later.
  abbrev pub Late : System W X → Type 0
  Late s = T ≤ time s.env

  abbrev pub Ticks : {A : Type 0} → M (System W X) A → Type 0
  Ticks m = Triple Late m (λ _. Late) (λ _. Late)

module _ {W : World} {time : W.State → ℕ} (clock : IsClock W time) {X : Type 0} (T : ℕ) where
  module _ {Y : Exit → System W X → Type 0} where
    pub ask-Late :
        {A : Type 0} (f : W.State → A × W.State)
        → ((e : W.State) → time e ≤ time (f e).1)
        → Triple (Late time T) (ask W f) (λ _. Late time T) Y
    unfolding ask
    ask-Late f later = record { at = λ s h. omega (arith, h, later s.env) }

    pub now-Late : Triple (Late time T) (ask W W.now) (λ _. Late time T) Y
    now-Late = ask-Late W.now (λ e. let (h, k) = clock.reads e in omega (arith, h, k))

    pub modify-Late :
        (f : System W X → System W X)
        → ((s : System W X) → (f s).env ≡ s.env)
        → Triple (Late time T) (modify f) (λ _. Late time T) Y
    unfolding modify
    modify-Late f same = record { at = λ s h. rw (same s) h }

    pub gets-Late :
        {A : Type 0} (f : System W X → A) → Triple (Late time T) (gets f) (λ _. Late time T) Y
    unfolding gets
    gets-Late f = record { at = λ s h. h }

    perform-Late :
        (by : Thread) (r : Request) → Triple (Late time T) (perform W by r) (λ _. Late time T) Y
    unfolding perform
    perform-Late by r = record { at = λ s h. omega (arith, h, clock.performs r s.env) }

    pub traced_alive-Late :
        (event : Event) (r : Request)
        → Triple (Late time T) (traced_alive W event r) (λ _. Late time T) Y
    unfolding traced_alive init_trace_alive end_trace_alive new_trace insert_node set_fields
    traced_alive-Late event r =
        ((now-Late ⟫ λ now. ask-Late W.new_guid clock.takes_guid ⟫ λ guid.
        gets-Late (λ s. s.workflow_name) ⟫ λ name.
        gets-Late (λ s. s.workflow_id) ⟫ λ id. Triple-pure _)
          ⟫ λ t. modify-Late _ (λ s. refl))
        ⟫ λ _. perform-Late alive_thread r ⟫ λ answer.
            (now-Late ⟫ λ now. modify-Late _ (λ s. refl) ⟫ λ _.
            gets-Late (λ s. s.trace_alive) ⟫ λ t.
            Triple-if W.trace_enable (λ _. modify-Late _ (λ s. refl)) (λ _. Triple-pure tt))
            ⟫ λ _. Triple-pure answer
