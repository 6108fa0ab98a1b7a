-- ===== src/Workflow/Traces.antt =====
-- `init_trace`, `end_trace` and their twins for the alive thread.
use delfos.Prelude.{Bool, ◌∷◌}
use delfos.Trace.{RequestTrace, start, set_response, assign}
use delfos.World.{World}
use delfos.World.Requests.{Request, Event}
use delfos.Monad.{M, pure, gets, modify, when, ◌>>=◌, ◌>>◌}
use delfos.Workflow.State.{Thread, sequence_thread, alive_thread, System, ask, perform, set_fields}

module _ (W : World) {X : Type 0} where
  -- `RequestTrace(_workflow_name, as_string(event), _workflow_id)`
  unfoldable pub new_trace : Event → M (System W X) (RequestTrace W.Json)
  new_trace event = do
    now ← ask W W.now
    guid ← ask W W.new_guid
    name ← gets (λ s. s.workflow_name)
    id ← gets (λ s. s.workflow_id)
    pure (start W.blank now guid name (W.as_string event) id)

  unfoldable pub init_trace : Event → M (System W X) (Unit {0})
  init_trace event = do
    t ← new_trace event
    modify (set_fields W (λ f. record f { trace = assign f.trace t }))

  unfoldable pub init_trace_alive : Event → M (System W X) (Unit {0})
  init_trace_alive event = do
    t ← new_trace event
    modify (set_fields W (λ f. record f { trace_alive = assign f.trace_alive t }))

  -- `_request_traces->get_object_nodes()->auto_insert_node(trace.get_guid(), trace)`
  unfoldable pub insert_node : Thread → RequestTrace W.Json → System W X → System W X
  insert_node by t s = record s { inserted = record { by = by; trace = t } ∷ s.inserted }

  unfoldable pub end_trace : Bool → W.Json → M (System W X) (Unit {0})
  end_trace request_success json_response = do
    now ← ask W W.now
    modify (
        set_fields W
          (λ f. record f { trace = set_response now request_success json_response f.trace }))
    t ← gets (λ s. s.trace)
    when W.trace_enable (modify (insert_node sequence_thread t))

  unfoldable pub end_trace_alive : Bool → W.Json → M (System W X) (Unit {0})
  end_trace_alive request_success json_response = do
    now ← ask W W.now
    modify (
        set_fields W (λ f. record f {
          trace_alive = set_response now request_success json_response f.trace_alive;
        }))
    t ← gets (λ s. s.trace_alive)
    when W.trace_enable (modify (insert_node alive_thread t))

  -- A request of the alive thread between its `init_trace_alive` and `end_trace_alive`.
  unfoldable pub traced_alive : Event → Request → M (System W X) (Bool × W.Json)
  traced_alive event r = do
    init_trace_alive event
    answer ← perform W alive_thread r
    end_trace_alive answer.0 answer.1
    pure answer
