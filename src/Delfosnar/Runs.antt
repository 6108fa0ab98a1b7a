-- ===== src/Delfosnar/Runs.antt =====
-- Whole runs of `delfosnarWorkflow::sequence` against the protocol.
use delfos.Prelude.{ℕ, ◌≡◌, refl, [], some}
use delfos.Barrier.{Barrier}
use delfos.World.{World}
use delfos.Monad.Triple.{Triple, Triple-pure, ◌⟫◌}
use delfos.Workflow.Buckets.{get_branchgroup_delfosnar_guid, get_branch_delfosnar_guid}
use delfos.Workflow.Run.{terminated}
use delfos.Workflow.Traced.{IsTraced}
use delfos.Protocol.{Place, phase}
use delfos.Protocol.Rules.{Thrown, gets-Stands, position-Stands}
use delfos.Protocol.Whole.{Kept, IsFresh, run-Kept}
use delfos.Desktop.Phases.{Fits-nothing, words_of}
use delfos.Desktop.Steps.{staff-Stands, create_seed-Stands, spawn_alive-Stands}
use delfos.Delfosnar.State.{DelfosnarSystem, new_workflow}
use delfos.Delfosnar.Sequence.{prepare, sequence}
use delfos.Delfosnar.Protocol.{created, seeded, closed, crashed, stage, account}
use delfos.Delfosnar.Obeys.{quiet}
use delfos.Delfosnar.Steps.{Crash, Here}
use delfos.Delfosnar.Rooms.{body-Stands}

module _ (W : World) where
  prepare-Stands :
      Triple (Here W created [] []) (prepare W) (λ _. Here W seeded [] []) (Thrown (account W))
  unfolding prepare get_branchgroup_delfosnar_guid get_branch_delfosnar_guid
  prepare-Stands = staff-Stands (account W) (Crash W) (quiet W) _ _ ⟫ λ staff.
      gets-Stands (account W) (stage created [] []) _ (λ s. s.agent_position) ⟫ λ i.
      position-Stands (account W) _ _ W.bucket.branchgroups_delfosnar i ⟫ λ group.
      position-Stands (account W) _ _ W.bucket.branches_delfosnar i ⟫ λ branch.
      create_seed-Stands (account W) (Crash W) (quiet W) _ _ (stage seeded [] [])
        (stage closed [] []) (λ g x. refl) (Fits-nothing _) (Fits-nothing _)
      ⟫ λ _. spawn_alive-Stands (account W) (Crash W) (quiet W) _ _ ⟫ λ _. Triple-pure _

  -- What the constructor makes is fresh.
  pub new_delfosnar-IsFresh :
      (position : ℕ) (b : Barrier) (e : W.State)
      → IsFresh (account W) (words_of [] [] []) (new_workflow W position b e)
  unfolding new_workflow
  new_delfosnar-IsFresh position b e = record {
    no_requests = refl;
    no_traces = refl;
    first_words = refl;
  }

  sequence-Kept :
      (fuel : ℕ) (s : DelfosnarSystem W)
      → IsFresh (account W) (words_of [] [] []) s
      → let (o, s') = sequence W fuel s in Kept (account W) (Crash W) o s'
  unfolding sequence
  sequence-Kept fuel s fresh =
      run-Kept (account W) (Crash W) (quiet W) (words_of [] [] []) (Fits-nothing _) prepare-Stands
        (body-Stands W) fuel s fresh

  -- However many rounds a new delfosnarWorkflow makes, whatever the servers answer and however the
  -- threads interleave, its requests are in the order of the protocol: each is for the session that
  -- the last login gave and, once it has been created, for the delfosnar whose guid the answer held;
  -- a delfosnar is closed after exactly ten updates of its room. The alive thread reads the room of
  -- that delfosnar only, while it is known.
  pub delfosnar_rounds-phase :
      (fuel : ℕ) (s : DelfosnarSystem W)
      → IsFresh (account W) (words_of [] [] []) s
      → let (o, s') = sequence W fuel s in
        (p : Place (account W)) × (phase (account W).machine s'.log ≡ some p)
  delfosnar_rounds-phase fuel s fresh =
      let place = (sequence-Kept fuel s fresh).place in (place.place, place.stands.accepted)

  -- If traces are enabled, each of the two threads of a new delfosnarWorkflow has handed over one trace for
  -- each of its own requests, in the order of these, with the request's own command and success; if
  -- they are not, none.
  pub delfosnar-IsTraced :
      (fuel : ℕ) (s : DelfosnarSystem W)
      → IsFresh (account W) (words_of [] [] []) s
      → let (o, s') = sequence W fuel s in IsTraced W s'.log s'.inserted
  delfosnar-IsTraced fuel s fresh = (sequence-Kept fuel s fresh).place.stands.traced

  -- If the core library's calls in its loop throw nothing and a run of a new delfosnarWorkflow ends
  -- by `std::terminate`, then its protocol has led to the phase after a refused alive of the
  -- delfosnar: whatever else ends the loop, the alive thread is joined.
  pub delfosnar_terminated :
      (fuel : ℕ) (s : DelfosnarSystem W)
      → IsFresh (account W) (words_of [] [] []) s
      → (sequence W fuel s).0 ≡ terminated
      → (p : Place (account W)) × (phase (account W).machine (sequence W fuel s).1.log ≡ some p)
        × (p.stage ≡ crashed)
  delfosnar_terminated fuel s fresh e =
      let kept = sequence-Kept fuel s fresh in
      (kept.place.place, kept.place.stands.accepted, kept.crashed e)
