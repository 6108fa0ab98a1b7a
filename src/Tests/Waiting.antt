-- ===== src/Tests/Waiting.antt =====
-- The waits for a call in a world whose clock goes on while the workflow sleeps.
use Prim.Native.Nat.{ℕ, ◌+◌, ◌*◌}
use delfos.Prelude.{Text, ◌≢◌, arith}
use delfos.Barrier.{make}
use delfos.Trace.{ns_per_ms}
use delfos.World.{World}
use delfos.Monad.{exit, hung}
use delfos.Cmn.State
use delfos.Cmn.Call
use delfos.Desktop.{Staff}
use delfos.Expired
use delfos.Inbound
use delfos.Iv
use delfos.Scheduled
use delfos.Waits.{IsClock}
use delfos.Waits.Rounds.{rounds_end}
use delfos.Waits.Whole.{sequence_ends}
use delfos.Workflow.Run.{unfinished}
use delfos.Tests.Demo.{demo}

-- Its state is the time.
abbrev clocked : World
clocked = record demo { sleep = λ ms n. n + ms * ns_per_ms }

abbrev clocked_time : ℕ → ℕ
clocked_time n = n

clocked-IsClock : IsClock clocked clocked_time
clocked-IsClock = record {
  reads = λ n. (omega arith, omega arith);
  sleeps = λ ms n. omega arith;
  performs = λ r n. omega arith;
  takes_guid = λ n. omega arith;
  goes_on = λ n. omega arith;
  lets_others = λ n. omega arith;
}

rounds_end_example :
    ((a : Staff) (s : Inbound.InboundSystem clocked) → (Inbound.body clocked 300 a s).0 ≢ exit hung)
    × ((a : Staff) (s : Iv.IvSystem clocked) → (Iv.body clocked 300 a s).0 ≢ exit hung)
    × ((a : Staff × Text) (s : Scheduled.ScheduledSystem clocked)
        → (Scheduled.body clocked 300 a s).0 ≢ exit hung)
    × ((branch : Text) (s : Expired.ExpiredSystem clocked)
        → (Expired.body clocked 300 branch s).0 ≢ exit hung)
rounds_end_example = rounds_end clocked-IsClock 300 (omega arith)

sequence_ends_example :
    (Call.sequence clocked 300 (State.new_workflow clocked 1 (make 1) 0)).0 ≢ unfinished
sequence_ends_example =
    sequence_ends clocked clocked-IsClock 300 (omega arith)
      (State.new_workflow clocked 1 (make 1) 0)
