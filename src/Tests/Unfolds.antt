-- ===== src/Tests/Unfolds.antt =====
-- The definitions that a run of a desktop unfolds.
use delfos.Prelude.{text_eq}
use delfos.Text.{find, substr}
use delfos.Barrier.{increment}
use delfos.Trace.{start, set_response, assign}
use delfos.Monad.{◌>>=◌, pure, contained}
use delfos.Workflow.State.{perform, ask, set_fields, set_own}
use delfos.Workflow.Traces.{
  init_trace, new_trace, end_trace, traced_alive, init_trace_alive, end_trace_alive, insert_node,
}
use delfos.Workflow.Calls.{alive_lm, alive_gari, generate_random_phone}
use delfos.Workflow.Buckets.{
  get_agent_guid, get_vateam_guids, get_vacenter_guids, get_branch_guid, insert_all, set_insert,
  text_lt, get_branchgroup_delfosnar_guid, get_branch_delfosnar_guid,
}
use delfos.Workflow.Schedule
use delfos.Workflow.Run
use delfos.Twilio.{lead_event, set_bridged, set_call}
use delfos.Twilio.Incoming.{
  inbound_event, inbound_request, iv_event, iv_request, inbound_session, pin_session,
}
use delfos.Desktop
use delfos.Inbound
use delfos.Iv
use delfos.Scheduled
use delfos.Delfosnar.State as DelfosnarState
use delfos.Delfosnar.Room as DelfosnarRoom
use delfos.Delfosnar.Sequence as DelfosnarSequence
use delfos.Protocol.{phase}

unfoldable pub runs : Unit {0}
unfolding Run.run Run.looped Run.wind_up Run.forever Run.begin Run.stopped Run.destroy_alive
    Run.join Run.joinable Run.stop_alive Run.spawn_alive Run.increment_barrier Run.gari_create_seed
    Schedule.traced Schedule.traced_or_break Schedule.schedule Schedule.sleep_for
    Schedule.sleep_delta Schedule.break_if_stopped Schedule.alive_step Schedule.take_guid
    Schedule.live_round perform ask set_fields set_own init_trace new_trace end_trace traced_alive
    init_trace_alive end_trace_alive insert_node alive_lm alive_gari generate_random_phone
    get_agent_guid get_vateam_guids get_vacenter_guids get_branch_guid
    get_branchgroup_delfosnar_guid get_branch_delfosnar_guid insert_all set_insert text_lt
    lead_event inbound_event inbound_request iv_event iv_request inbound_session pin_session find
    substr ◌>>=◌ pure contained start set_response assign text_eq increment phase set_bridged
    set_call Desktop.lead_found Desktop.tracking Desktop.speak Desktop.staff Desktop.getvateams
    Desktop.login Desktop.change_status Desktop.check_vateams Desktop.get_availability Desktop.poll
    Desktop.wait_bridged Desktop.open_session Desktop.capture_lead Desktop.set_result Desktop.logout
    Inbound.new_workflow Inbound.alive_round Inbound.twilio_event Inbound.twilio_request
    Inbound.turn Inbound.prepare Inbound.call_in Inbound.desktop Inbound.talk Inbound.body
    Inbound.sequence Iv.new_workflow Iv.flag Iv.alive_round Iv.twilio_event Iv.twilio_request
    Iv.turn Iv.prepare Iv.pin_found Iv.new_pin Iv.call_iv Iv.desktop Iv.talk Iv.body Iv.sequence
    Scheduled.new_workflow Scheduled.alive_round Scheduled.twilio_event Scheduled.turn
    Scheduled.prepare Scheduled.schedule_lead Scheduled.lead_session_found Scheduled.desktop
    Scheduled.talk Scheduled.body Scheduled.sequence DelfosnarState.new_workflow
    DelfosnarState.gari_read_room DelfosnarState.read_as DelfosnarState.alive_round
    DelfosnarState.turn DelfosnarSequence.prepare DelfosnarRoom.alive_delfosnar
    DelfosnarRoom.delfosnar_found DelfosnarRoom.create DelfosnarRoom.store_user
    DelfosnarRoom.gari_create_user DelfosnarRoom.gari_update_room DelfosnarRoom.update_or_break
    DelfosnarRoom.updates DelfosnarSequence.desktop DelfosnarSequence.hold DelfosnarSequence.body
    DelfosnarSequence.sequence
runs = tt
