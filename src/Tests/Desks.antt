-- ===== src/Tests/Desks.antt =====
-- `ScheduledWorkflow` and `delfosnarWorkflow` in the demonstration world.
use delfos.Prelude.{◌∷◌, [], List, Text, ◌≡◌, refl, ◌≢◌, true, false, some, codes}
use delfos.Barrier.{make}
use delfos.World.{World}
use delfos.World.Requests.{alive_branchgroup}
use delfos.Workflow.Run.{terminated}
use delfos.Workflow.Traced.{IsTraced}
use delfos.Monad.{val}
use delfos.Workflow.Buckets.{get_vateam_guids, get_vacenter_guids}
use delfos.Workflow.Sets.{IsSetOf, guids-IsSetOf}
use delfos.Protocol.{Place, phase}
use delfos.Scheduled
use delfos.Scheduled.Protocol as ScheduledProtocol
use delfos.Scheduled.Runs.{
  new_scheduled-IsFresh, scheduled_rounds-phase, scheduled-IsTraced, scheduled_joins,
}
use delfos.Delfosnar.State as DelfosnarState
use delfos.Delfosnar.Sequence as DelfosnarSequence
use delfos.Delfosnar.Protocol as DelfosnarProtocol
use delfos.Delfosnar.Runs.{
  new_delfosnar-IsFresh, delfosnar_rounds-phase, delfosnar-IsTraced, delfosnar_terminated,
}
use delfos.Tests.Unfolds.{runs}
use delfos.Tests.Demo.{demo, nil, obj, str}

abbrev scheduled_workflow : Scheduled.ScheduledSystem demo
scheduled_workflow = Scheduled.new_workflow demo 1 (make 1) 0

scheduled_rounds-phase_example :
    (p : Place (ScheduledProtocol.account demo)) × (phase
        (ScheduledProtocol.account demo).machine
        (Scheduled.sequence demo 1 9 scheduled_workflow).1.log
      ≡ some p)
scheduled_rounds-phase_example =
    scheduled_rounds-phase demo 1 9 scheduled_workflow (new_scheduled-IsFresh demo 1 (make 1) 0)

scheduled-IsTraced_example :
    let s = (Scheduled.sequence demo 1 9 scheduled_workflow).1 in IsTraced demo s.log s.inserted
scheduled-IsTraced_example =
    scheduled-IsTraced demo 1 9 scheduled_workflow (new_scheduled-IsFresh demo 1 (make 1) 0)

scheduled_joins_example : (Scheduled.sequence demo 1 9 scheduled_workflow).0 ≢ terminated
scheduled_joins_example =
    scheduled_joins demo 1 9 scheduled_workflow (new_scheduled-IsFresh demo 1 (make 1) 0)

-- A world in which the delfosnar's alive is refused.
abbrev refused : World
refused = record demo {
  perform = λ r n. elim r [
    | alive_branchgroup a s b ↦ (false, nil, n)
    | _ ↦ (true, obj (str (codes "g")), n)
  ];
}

abbrev delfosnar_workflow : DelfosnarState.DelfosnarSystem demo
delfosnar_workflow = DelfosnarState.new_workflow demo 1 (make 1) 0

abbrev refused_workflow : DelfosnarState.DelfosnarSystem refused
refused_workflow = DelfosnarState.new_workflow refused 1 (make 1) 0

delfosnar_rounds-phase_example :
    (p : Place (DelfosnarProtocol.account demo)) × (phase
        (DelfosnarProtocol.account demo).machine
        (DelfosnarSequence.sequence demo 1 delfosnar_workflow).1.log
      ≡ some p)
delfosnar_rounds-phase_example =
    delfosnar_rounds-phase demo 1 delfosnar_workflow (new_delfosnar-IsFresh demo 1 (make 1) 0)

delfosnar-IsTraced_example :
    let s = (DelfosnarSequence.sequence demo 1 delfosnar_workflow).1 in
    IsTraced demo s.log s.inserted
delfosnar-IsTraced_example =
    delfosnar-IsTraced demo 1 delfosnar_workflow (new_delfosnar-IsFresh demo 1 (make 1) 0)

runs_out : (DelfosnarSequence.sequence refused 1 refused_workflow).0 ≡ terminated
unfolding runs DelfosnarSequence.sequence
runs_out = refl

delfosnar_terminated_example :
    (p : Place (DelfosnarProtocol.account refused)) × (phase
        (DelfosnarProtocol.account refused).machine
        (DelfosnarSequence.sequence refused 1 refused_workflow).1.log
      ≡ some p)
    × (p.stage ≡ DelfosnarProtocol.Stage.crashed)
delfosnar_terminated_example =
    delfosnar_terminated refused 1 refused_workflow (new_delfosnar-IsFresh refused 1 (make 1) 0)
      runs_out

guids-IsSetOf_example :
    ((set : List Text) × (get_vateam_guids demo delfosnar_workflow ≡ (val set, delfosnar_workflow))
      × IsSetOf demo.bucket.relations set)
    × ((set : List Text) × (get_vacenter_guids demo delfosnar_workflow
          ≡ (val set, delfosnar_workflow))
        × IsSetOf (demo.bucket.vacenter ∷ []) set)
guids-IsSetOf_example = guids-IsSetOf demo delfosnar_workflow refl
