-- ===== src/Workflow/State.antt =====
-- The fields of `Workflow`, and the system around one workflow.
use delfos.Prelude.{ℕ, Bool, List, ◌∷◌, Text}
use delfos.Barrier.{Barrier}
use delfos.Trace.{RequestTrace}
use delfos.World.{World}
use delfos.World.Requests.{Request}
use delfos.Monad.{val, M}

pub record Fields (J : Type 0) : Type 0 where
  pub seed_guid : Text
  pub gari_user_guid : ℕ
  pub agent_position : ℕ
  pub workflow_running : Bool
  pub trace : RequestTrace J
  pub trace_alive : RequestTrace J
  pub workflow_name : Text
  pub workflow_id : ℕ

-- The thread of `sequence`, and that of `alive_worker`.
pub data Thread : Type 0 where
  sequence_thread alive_thread : Thread

-- A request that was made, whether it succeeded, and what `json_response` held then.
pub record Entry (J : Type 0) : Type 0 where
  pub by : Thread
  pub request : Request
  pub succeeded : Bool
  pub answer : J

-- A trace that a thread has handed over.
pub record Handed (J : Type 0) : Type 0 where
  pub by : Thread
  pub trace : RequestTrace J

-- The alive thread: not there, started, past its call of `get_agent_guid`, ended, or joined. It is
-- joinable from its start until it is joined.
pub data AliveThread : Type 0 where
  absent starting ended joined : AliveThread
  active : (agent_guid : Text) → AliveThread

-- `log` and `inserted` list the requests made and the traces handed to `auto_insert_node`, with the
-- thread of each, the newest first.
pub record System (W : World) (X : Type 0) : Type 0 where
  pub fields : Fields W.Json
  pub open fields use *
  pub own : X
  pub barrier : Barrier
  pub alive : AliveThread
  pub env : W.State
  pub log : List (Entry W.Json)
  pub inserted : List (Handed W.Json)

module _ (W : World) {X : Type 0} where
  -- What the world does, with its answer.
  unfoldable pub ask : {A : Type 0} → (W.State → A × W.State) → M (System W X) A
  ask f s = let (a, e) = f s.env in (val a, record s { env = e })

  -- A tester's request, by one of the two threads.
  unfoldable pub perform : Thread → Request → M (System W X) (Bool × W.Json)
  perform by r s =
      let (ok, json, e) = W.perform r s.env in
      (
        val (ok, json),
        record s {
          env = e;
          log = record { by = by; request = r; succeeded = ok; answer = json } ∷ s.log;
        },
      )

  unfoldable pub set_own : (X → X) → System W X → System W X
  set_own f s = record s { own = f s.own }

  unfoldable pub set_fields : (Fields W.Json → Fields W.Json) → System W X → System W X
  set_fields f s = record s { fields = f s.fields }
