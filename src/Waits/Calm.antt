-- ===== src/Waits/Calm.antt =====
-- Code that is left by a value, or in ways that are named: the rules for what every workflow does.
use delfos.Prelude.{Bool, not, List, [], ◌∷◌}
use delfos.World.{World, Turn}
use delfos.World.Requests.{Request, Event}
use delfos.Monad.{Exit, broke, threw, hung, M, gets, modify, leave_if}
use delfos.Monad.Triple.{
  Triple, Triple-pure, Triple-leave, Triple-if, Triple-contained, Triple-any, ◌⟫◌,
}
use delfos.Workflow.State.{System, Thread, sequence_thread, ask, perform}
use delfos.Workflow.Traces.{new_trace, init_trace, end_trace}
use delfos.Workflow.Schedule
use delfos.Waits.Ends.{Any}

-- Left by a value or by an exception.
abbrev pub Thrown : {S : Type 0} → Exit → S → Type 0
Thrown broke s = ⊥
Thrown threw s = Unit {0}
Thrown hung s = ⊥

-- Nothing is asked but that it is left in no other way.
abbrev pub Calm : {S A : Type 0} → (Exit → S → Type 0) → M S A → Type 0
Calm Y m = Triple Any m (λ _. Any) Y

module _ {W : World} {X : Type 0} {Y : Exit → System W X → Type 0} where
  pub ask-Any : {A : Type 0} (f : W.State → A × W.State) → Calm Y (ask W f)
  unfolding ask
  ask-Any f = record { at = λ s h. tt }

  pub gets-Any : {A : Type 0} (f : System W X → A) → Calm Y (gets f)
  unfolding gets
  gets-Any f = record { at = λ s h. tt }

  pub modify-Any : (f : System W X → System W X) → Calm Y (modify f)
  unfolding modify
  modify-Any f = record { at = λ s h. tt }

  pub perform-Any : (by : Thread) (r : Request) → Calm Y (perform W by r)
  unfolding perform
  perform-Any by r = record { at = λ s h. tt }

  pub leave_if-Any : (b : Bool) (e : Exit) → ((s : System W X) → Y e s) → Calm Y (leave_if b e)
  leave_if-Any b e left = Triple-if b (λ _. Triple-leave e (λ s h. left s)) (λ _. Triple-pure tt)

  pub init_trace-Any : (event : Event) → Calm Y (init_trace W event)
  unfolding init_trace new_trace
  init_trace-Any event =
      (ask-Any W.now ⟫ λ now. ask-Any W.new_guid ⟫ λ guid.
      gets-Any (λ s. s.workflow_name) ⟫ λ name. gets-Any (λ s. s.workflow_id) ⟫ λ id. Triple-pure _)
      ⟫ λ t. modify-Any _

  pub end_trace-Any : (ok : Bool) (json : W.Json) → Calm Y (end_trace W ok json)
  unfolding end_trace
  end_trace-Any ok json = ask-Any W.now ⟫ λ now. modify-Any _ ⟫ λ _. gets-Any (λ s. s.trace) ⟫ λ t.
      Triple-if W.trace_enable (λ _. modify-Any _) (λ _. Triple-pure tt)

  module _ (turn : Turn W.Http → M (System W X) (Unit {0})) where
    pub run_turns-Any : (ts : List (Turn W.Http)) → Calm Y (Schedule.run_turns W turn ts)
    unfolding Schedule.run_turns
    run_turns-Any [] = Triple-pure tt
    run_turns-Any (t ∷ ts) = Triple-contained (Triple-any (turn t)) ⟫ λ _. run_turns-Any ts

    pub schedule-Any : Calm Y (Schedule.schedule W turn)
    unfolding Schedule.schedule
    schedule-Any = ask-Any W.others ⟫ λ turns. run_turns-Any turns

    pub pause-Any : Calm Y (Schedule.sleep_delta W turn)
    unfolding Schedule.sleep_delta Schedule.sleep_for
    pause-Any = ask-Any W.draw_delta ⟫ λ delta. ask-Any _ ⟫ λ _. schedule-Any

    pub traced-Any : (event : Event) (r : Request) → Calm Y (Schedule.traced W turn event r)
    unfolding Schedule.traced
    traced-Any event r = init_trace-Any event ⟫ λ _. schedule-Any ⟫ λ _.
        perform-Any sequence_thread r ⟫ λ answer.
        schedule-Any ⟫ λ _. end_trace-Any answer.0 answer.1 ⟫ λ _. Triple-pure answer

    module _ (left : (s : System W X) → Y broke s) where
      pub stop-Any : Calm Y (Schedule.break_if_stopped W turn)
      unfolding Schedule.break_if_stopped
      stop-Any =
          schedule-Any ⟫ λ _. ask-Any W.can_continue ⟫ λ go_on. leave_if-Any (not go_on) broke left

      pub asked-Any :
          (event : Event) (r : Request) → Calm Y (Schedule.traced_or_break W turn event r)
      unfolding Schedule.traced_or_break
      asked-Any event r = traced-Any event r ⟫ λ answer.
          leave_if-Any (not answer.0) broke left ⟫ λ _. Triple-pure answer.1
