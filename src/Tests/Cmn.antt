-- ===== src/Tests/Cmn.antt =====
-- `CMNWorkflow` in the demonstration world.
use delfos.Prelude.{◌≡◌, refl, ◌≢◌, false, [], some}
use delfos.Workflow.Run.{Outcome, returned, terminated}
use delfos.Workflow.Traced.{IsTraced}
use delfos.Twilio.Laws.{Flagged, lead_event_flag}
use delfos.Cmn.State.{CmnSystem}
use delfos.Prelude.{text_eq}
use delfos.Text.{find, substr}
use delfos.Barrier.{increment}
use delfos.Trace.{start, set_response, assign}
use delfos.Monad.{◌>>=◌, pure, contained}
use delfos.Workflow.State.{perform, ask, set_fields}
use delfos.Workflow.Traces.{
  init_trace, new_trace, end_trace, traced_alive, init_trace_alive, end_trace_alive, insert_node,
}
use delfos.Workflow.Calls.{alive_lm, alive_gari, generate_random_phone}
use delfos.Workflow.Buckets.{
  get_agent_guid, get_vateam_guids, get_vacenter_guids, get_branch_guid, insert_all, set_insert,
  text_lt,
}
use delfos.Workflow.Schedule
use delfos.Workflow.Run
use delfos.Twilio.{on_event, on_call, on_bridge, lead_event, set_bridged, set_call}
use delfos.Cmn.State.{tracking, set_session, set_lead}
use delfos.Cmn.Alive.{twilio_event, alive_round, turn}
use delfos.Cmn.Sequence.{prepare, getvateams, login, change_status, check_vateams, get_availability}
use delfos.Cmn.Call.{
  sequence, body, talk, desktop, capture_lead, lead_in, request_lead, poll, wait_bridged,
  open_session, set_result, logout,
}
use delfos.Cmn.Protocol.{Phase, closed, phase}
use delfos.Cmn.Obeys.Run.{IsFresh, sequence-phase, sequence-IsTraced, sequence_joins}
use delfos.Tests.Demo.{demo, fresh}

abbrev workflow : CmnSystem demo
workflow = fresh (record {
  session_guid = [];
  lead_guid = [];
  tracker = record { lead_customer_phone = []; call = demo.new_call; call_bridged = false };
})

workflow-IsFresh : IsFresh demo workflow
workflow-IsFresh = record {
  no_requests = refl;
  no_traces = refl;
  no_session = refl;
  no_lead = refl;
}

-- The line that a run unfolds.
runs : Unit {0}
unfolding sequence body talk desktop prepare getvateams login change_status check_vateams
    get_availability capture_lead lead_in request_lead poll wait_bridged open_session set_result
    logout twilio_event alive_round turn tracking set_session set_lead Run.run Run.looped
    Run.wind_up Run.forever Run.begin Run.stopped Run.destroy_alive Run.join Run.joinable
    Run.stop_alive Run.spawn_alive Run.increment_barrier Run.gari_create_seed Run.gari_update_room
    Schedule.traced Schedule.traced_or_break Schedule.schedule Schedule.sleep_for
    Schedule.sleep_delta Schedule.break_if_stopped Schedule.alive_step perform ask set_fields
    init_trace new_trace end_trace traced_alive init_trace_alive end_trace_alive insert_node
    alive_lm alive_gari generate_random_phone get_agent_guid get_vateam_guids get_vacenter_guids
    get_branch_guid insert_all set_insert text_lt lead_event on_event on_call on_bridge find substr
    ◌>>=◌ pure contained start set_response assign text_eq increment phase set_bridged set_call
runs = tt

-- With every answer good, the run goes through the whole protocol.
run_closes :
    let (o, s) = sequence demo 9 workflow in
    (o ≡ returned)
    × (phase demo s.log ≡ some closed)
    × (s.workflow_running ≡ false)
    × (s.barrier.count ≡ 0)
unfolding runs Schedule.take_guid Schedule.live_round delfos.Barrier.make
run_closes = (refl, refl, refl, refl)

sequence-phase_example : (p : Phase) × (phase demo (sequence demo 9 workflow).1.log ≡ some p)
sequence-phase_example = sequence-phase demo 9 workflow workflow-IsFresh

sequence-IsTraced_example :
    IsTraced demo (sequence demo 9 workflow).1.log (sequence demo 9 workflow).1.inserted
sequence-IsTraced_example = sequence-IsTraced demo 9 workflow workflow-IsFresh

sequence_joins_example : (sequence demo 9 workflow).0 ≢ terminated
sequence_joins_example = sequence_joins demo 9 workflow workflow-IsFresh

lead_event_flag_example :
    let t = (lead_event demo 2 workflow.own.tracker).1 in
    (t.lead_customer_phone ≡ workflow.own.lead_customer_phone)
    × Flagged demo (demo.twilio_event_type 2) workflow.own.call_bridged t
lead_event_flag_example = lead_event_flag demo 2 workflow.own.tracker
