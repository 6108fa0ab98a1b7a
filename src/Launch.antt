-- ===== src/Launch.antt =====
-- main.cpp: how the workflows are launched, the check of the PBX before that, and the handler that
-- passes Twilio's events on to every workflow.
pub mod Partition
pub mod Pbx
use delfos.Prelude.{
  ℕ, zero, suc, ◌+◌, ◌%◌, Bool, true, false, not, List, [], ◌∷◌, ◌++◌, if◌then◌else◌,
}
use delfos.Trace.{uint_mod}
use delfos.Monad.{M, pure, ◌>>=◌, ◌>>◌}

-- The classes derived from `Workflow`.
pub data Kind : Type 0 where
  agent cmn iv inbound scheduled expired delfosnar : Kind

-- What `main` reads of the configuration: the number of workflows of each kind.
pub record Numbers : Type 0 where
  pub agent_n_agents : ℕ
  pub cmn_n_agents : ℕ
  pub iv_n_agents : ℕ
  pub inbound_n_agents : ℕ
  pub scheduled_n_agents : ℕ
  pub expired_n_agents : ℕ
  pub delfosnar_n_agents : ℕ

-- A member of `workflow_list`, with its `_agent_position`.
pub record Launched : Type 0 where
  pub kind : Kind
  pub agent_position : ℕ

-- The sum of two `uint`.
abbrev pub add_uint : ℕ → ℕ → ℕ
add_uint a b = (a + b) % uint_mod

-- `for (size_t i = 0; i < n_agents; ++i)`, from i on with n rounds left. The constructor takes
-- `start_agent_index + i` as a `uint`.
unfoldable pub launch_from : Kind → ℕ → ℕ → ℕ → List Launched
launch_from kind start_agent_index i zero = []
launch_from kind start_agent_index i (suc n) =
    record { kind = kind; agent_position = (start_agent_index + i) % uint_mod }
    ∷ launch_from kind start_agent_index (suc i) n

-- `launch_agent` and its six twins: what each appends to `workflow_list`.
unfoldable pub launch : Kind → ℕ → ℕ → List Launched
unfolding launch_from
launch kind n_agents start_agent_index = launch_from kind start_agent_index 0 n_agents

module _ (c : Numbers) where
  unfoldable pub total_agents : ℕ
  total_agents =
      add_uint
        (add_uint
          (add_uint
            (add_uint (add_uint (add_uint c.agent_n_agents c.cmn_n_agents) c.iv_n_agents)
              c.inbound_n_agents)
            c.scheduled_n_agents)
          c.expired_n_agents)
        c.delfosnar_n_agents

  -- "launch all workflows": `workflow_list` after it.
  unfoldable pub launch_all : List Launched
  unfolding launch
  launch_all =
      let from_iv = add_uint c.agent_n_agents c.cmn_n_agents in
      let from_inbound = add_uint from_iv c.iv_n_agents in
      let from_scheduled = add_uint from_inbound c.inbound_n_agents in
      let from_expired = add_uint from_scheduled c.scheduled_n_agents in
      let from_delfosnar = add_uint from_expired c.expired_n_agents in
      launch agent c.agent_n_agents 0
      ++ (launch cmn c.cmn_n_agents c.agent_n_agents
          ++ (launch iv c.iv_n_agents from_iv
              ++ (launch inbound c.inbound_n_agents from_inbound
                  ++ (launch scheduled c.scheduled_n_agents from_scheduled
                      ++ (launch expired c.expired_n_agents from_expired
                          ++ launch delfosnar c.delfosnar_n_agents from_delfosnar)))))

module _ {S : Type 0} where
  -- `for (auto item : _workflow_list) item->twilio_event(http_request);`
  unfoldable pub signal_all : List (M S Bool) → M S Bool
  signal_all [] = pure true
  signal_all (item ∷ items) = item >>= λ _. signal_all items

  -- `TwilioEvent::twilio_event` and `twilio_request`, given `_process_can_continue.load()` and the
  -- call of each workflow's handler.
  unfoldable pub signal : Bool → List (M S Bool) → M S Bool
  unfolding signal_all
  signal process_can_continue items =
      if not process_can_continue then pure true else signal_all items

-- `ENZO_PBX_CHECK_RETRY`, and the period in seconds
abbrev pub enzo_pbx_check_retry : ℕ
enzo_pbx_check_retry = 10

abbrev pub enzo_pbx_check_period_seconds : ℕ
enzo_pbx_check_period_seconds = 3

-- `request_ping_to_pbx` and `sleep_for` are the world's.
module _ {S : Type 0} (ping : S → Bool × S) (sleep : ℕ → S → S) where
  -- The loop with n rounds left.
  unfoldable pub check_rounds : ℕ → S → Bool × S
  check_rounds zero s = (false, s)
  check_rounds (suc n) s =
      let (pbx_running, s') = ping s in
      let later = check_rounds n (sleep enzo_pbx_check_period_seconds s') in
      elim pbx_running [ true ↦ (true, s') | false ↦ later ]

  unfoldable pub check_pbx_running : S → Bool × S
  unfolding check_rounds
  check_pbx_running s = check_rounds enzo_pbx_check_retry s
