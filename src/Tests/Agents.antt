-- ===== src/Tests/Agents.antt =====
-- `AgentWorkflow` and `ExpiredWorkflow` in the demonstration world.
use delfos.Prelude.{◌≡◌, refl, ◌≢◌, [], some}
use delfos.Barrier.{make}
use delfos.Workflow.Run.{terminated}
use delfos.Workflow.Traced.{IsNamed}
use delfos.Agent
use delfos.Agent.{AgentFields, AgentSystem}
use delfos.Agent.Protocol.{Phase, phase, traced_as}
use delfos.Agent.Rounds.{
  IsFresh, new_workflow-IsFresh, sequence_rounds-phase, sequence-IsNamed, sequence_rounds_join,
}
use delfos.Expired
use delfos.Expired.{ExpiredFields, ExpiredSystem}
use delfos.Expired.Leads.{Granted, InOrder, sequence-Granted}
use delfos.Tests.Demo.{demo, fresh}

abbrev workflow : AgentSystem demo
workflow = Agent.new_workflow demo 1 (make 1) 0

workflow-IsFresh : IsFresh demo workflow
workflow-IsFresh = new_workflow-IsFresh demo 1 (make 1) 0

sequence_rounds-phase_example :
    (p : Phase) × (phase demo (Agent.sequence demo 3 workflow).1.log ≡ some p)
sequence_rounds-phase_example = sequence_rounds-phase demo 3 workflow workflow-IsFresh

sequence-IsNamed_example :
    IsNamed demo traced_as
      (Agent.sequence demo 3 workflow).1.log
      (Agent.sequence demo 3 workflow).1.inserted
sequence-IsNamed_example = sequence-IsNamed demo 3 workflow workflow-IsFresh

sequence_rounds_join_example : (Agent.sequence demo 3 workflow).0 ≢ terminated
sequence_rounds_join_example = sequence_rounds_join demo 3 workflow workflow-IsFresh

abbrev expired : ExpiredSystem demo
expired = fresh (record { lead_customer_phone = [] })

sequence-Granted_example :
    let s = (Expired.sequence demo 3 expired).1 in
    Granted demo s.log × InOrder demo s.log s.inserted
sequence-Granted_example = sequence-Granted demo 3 expired refl refl
