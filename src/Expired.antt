-- ===== src/Expired.antt =====
-- workflows/ExpiredWorkflow.h and ExpiredWorkflow.cpp: leads that are scheduled and never attended.
-- There is no alive thread, and Twilio's events do nothing.
pub mod Leads
use delfos.Prelude.{ℕ, zero, suc, ◌+◌, ◌*◌, Bool, true, false, not, [], Text, codes, ltb}
use delfos.Barrier.{Barrier}
use delfos.Workflow.Construct.{construct}
use delfos.World.{World, Turn}
use delfos.World.Requests
use delfos.World.Requests.{LeadAction, webuser_request_lead}
use delfos.Monad.{broke, threw, hung, Res, val, exit, M, pure, gets, modify, leave, ◌>>=◌, ◌>>◌}
use delfos.Workflow.State.{System, ask}
use delfos.Workflow.Buckets.{get_agent_guid, get_branch_guid}
use delfos.Workflow.Calls.{generate_random_phone}
use delfos.Workflow.Schedule
use delfos.Workflow.Run
use delfos.Workflow.Run.{Outcome, returned, caught, unfinished}

abbrev pub ns_per_second : ℕ
ns_per_second = 1_000_000_000

-- `_expired_iteration_polling` and `_expired_iteration_period`, in seconds
abbrev pub expired_iteration_polling : ℕ
expired_iteration_polling = 3

abbrev pub expired_iteration_period : ℕ
expired_iteration_period = 60

pub record ExpiredFields : Type 0 where
  pub lead_customer_phone : Text

module _ (W : World) where
  abbrev pub ExpiredSystem : Type 0
  ExpiredSystem = System W ExpiredFields

  -- The constructor.
  unfoldable pub new_workflow : ℕ → Barrier → W.State → ExpiredSystem
  unfolding construct
  new_workflow agent_position =
      construct W (codes "expired") agent_position (record { lead_customer_phone = [] })

  unfoldable pub turn : Turn W.Http → M ExpiredSystem (Unit {0})
  turn t = pure tt

  unfoldable pub prepare : M ExpiredSystem Text
  prepare = do
    Run.increment_barrier W turn
    position ← gets (λ s. s.agent_position)
    get_agent_guid W position
    get_branch_guid W

  unfoldable pub set_phone : Text → ExpiredSystem → ExpiredSystem
  set_phone phone s = record s { own = record s.own { lead_customer_phone = phone } }

  -- "Schedule Lead - Landing"
  unfoldable pub schedule_lead : Text → M ExpiredSystem (Unit {0})
  schedule_lead branch_id = do
    metadata ← ask W W.new_guid
    phone ← generate_random_phone W
    modify (set_phone phone)
    scheduled_datetime ← ask W W.now
    seed ← gets (λ s. s.seed_guid)
    Schedule.traced_or_break W turn webuser_request_lead (
        Requests.request_lead (record {
          action = LeadAction.scheduled_from_landing;
          branch = branch_id;
          phone = phone;
          country = codes "ES";
          name = codes "my-name";
          email = codes "user@mail.com";
          seed = seed;
          scheduled = scheduled_datetime;
          metadata = metadata;
        }))
    pure tt

  -- "Wait for some time before proceeding", from `init_time` on. Fuel counts the rounds.
  unfoldable pub wait_period : ℕ → ℕ → M ExpiredSystem (Unit {0})
  wait_period init_time zero = leave hung
  wait_period init_time (suc fuel) = do
    Schedule.schedule W turn
    go_on ← ask W W.can_continue
    elim go_on [
      | false ↦ pure tt
      | true ↦ do
        now ← ask W W.now
        elim (ltb (init_time + expired_iteration_period * ns_per_second) now) [
          | true ↦ pure tt
          | false ↦ do
            Schedule.sleep_for W turn (expired_iteration_polling * 1000)
            wait_period init_time fuel
        ]
    ]

  unfoldable pub body : ℕ → Text → M ExpiredSystem (Unit {0})
  body fuel branch_id = do
    Schedule.break_if_stopped W turn
    Schedule.sleep_delta W turn
    schedule_lead branch_id
    init_time ← ask W W.now
    wait_period init_time fuel

  -- After the loop, or in the handler of exceptions, which returns.
  unfoldable pub finish : Res (Unit {0}) → ExpiredSystem → Outcome × ExpiredSystem
  finish (exit broke) s = (returned, Run.stopped W turn s)
  finish (exit threw) s = (caught, s)
  finish (exit hung) s = (unfinished, s)
  finish (val _) s = (unfinished, s)

  -- Fuel counts the rounds of the loop, and those of each wait.
  unfoldable pub sequence : ℕ → ExpiredSystem → Outcome × ExpiredSystem
  sequence fuel s =
      let code = prepare >>= λ branch_id. Run.forever W turn fuel (body fuel branch_id) in
      let (r, s') = code (Run.begin W turn s) in finish r s'
