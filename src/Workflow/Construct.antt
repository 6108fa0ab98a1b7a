-- ===== src/Workflow/Construct.antt =====
-- The constructor of `Workflow`.
use delfos.Prelude.{ℕ, false, [], Text}
use delfos.Barrier.{Barrier}
use delfos.Trace.{default}
use delfos.World.{World}
use delfos.Workflow.State.{System, AliveThread}

module _ (W : World) {X : Type 0} where
  -- `own` are the fields of the derived class, which names itself by `set_workflow_name`. The two
  -- traces take the time and a guid each.
  unfoldable pub construct : Text → ℕ → X → Barrier → W.State → System W X
  construct workflow_name agent_position own barrier e =
      let (now, e1) = W.now e in
      let (guid, e2) = W.new_guid e1 in
      let (now_alive, e3) = W.now e2 in
      let (guid_alive, e4) = W.new_guid e3 in
      record {
        fields = record {
          seed_guid = [];
          gari_user_guid = 0;
          agent_position = agent_position;
          workflow_running = false;
          trace = default W.blank now guid;
          trace_alive = default W.blank now_alive guid_alive;
          workflow_name = workflow_name;
          workflow_id = 0;
        };
        own = own;
        barrier = barrier;
        alive = AliveThread.absent;
        env = e4;
        log = [];
        inserted = [];
      }
