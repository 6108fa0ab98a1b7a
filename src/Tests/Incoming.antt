-- ===== src/Tests/Incoming.antt =====
-- `InboundWorkflow` and `IVWorkflow` in worlds where the customer's call is bridged after a while.
use Prim.Native.Nat.{ℕ, ◌+◌, ◌%◌}
use delfos.Prelude.{arith, ◌≡◌, refl, ◌≢◌, [], ◌∷◌, some, Text, codes, text_eq, ◌==◌, if◌then◌else◌}
use delfos.Barrier.{make}
use delfos.World.{World, alive_turn, event_turn, request_turn}
use delfos.Workflow.Run.{unfinished, terminated}
use delfos.Workflow.Traced.{IsTraced}
use delfos.Protocol.{Place, phase}
use delfos.Twilio.{user_mark, agent_mark, user_session, agent_session}
use delfos.Twilio.Sessions.{address, address_sessions}
use delfos.Twilio.Laws.{Follows, Keeps}
use delfos.Twilio.Incoming.{inbound_event, inbound_request, iv_event, iv_request}
use delfos.Twilio.IncomingLaws.{incoming_flag}
use delfos.Inbound
use delfos.Inbound.Protocol as InboundProtocol
use delfos.Inbound.Runs.{new_inbound-IsFresh, inbound_rounds-phase, inbound-IsTraced, inbound_joins}
use delfos.Iv
use delfos.Iv.Protocol as IvProtocol
use delfos.Iv.Runs.{new_iv-IsFresh, iv_rounds-phase, iv-IsTraced, iv_joins}
use delfos.Tests.Unfolds.{runs}
use delfos.Tests.Demo.{demo, param_of}

abbrev phone : Text
phone = codes "+34659000000"

-- The caller's request, and the agent's session in the address of its call.
abbrev incoming_param : ℕ → Text → Text
incoming_param n key =
    if text_eq key (codes "caller")
    then phone
    else if text_eq key (codes "callsid")
    then codes "cs"
    else if text_eq key (codes "url")
    then if n == 1 then codes "h/ses_1/ch-agt_1/c" else codes "h/ses_1/bridge"
    else param_of n key

abbrev inbound_demo : World
inbound_demo = record demo {
  url_param = incoming_param;
  path = λ n. if n == 2 then codes "/cs/bridge" else codes "/bridge";
  others = λ n. (alive_turn ∷ request_turn 0 0 ∷ event_turn (n % 4) ∷ [], n + 1);
}

abbrev inbound_workflow : Inbound.InboundSystem inbound_demo
inbound_workflow = Inbound.new_workflow inbound_demo 1 (make 1) 0

inbound_rounds-phase_example :
    (p : Place (InboundProtocol.account inbound_demo)) × (phase
        (InboundProtocol.account inbound_demo).machine
        (Inbound.sequence inbound_demo 1 9 inbound_workflow).1.log
      ≡ some p)
inbound_rounds-phase_example =
    inbound_rounds-phase inbound_demo 1 9 inbound_workflow
      (new_inbound-IsFresh inbound_demo 1 (make 1) 0)

inbound-IsTraced_example :
    let s = (Inbound.sequence inbound_demo 1 9 inbound_workflow).1 in
    IsTraced inbound_demo s.log s.inserted
inbound-IsTraced_example =
    inbound-IsTraced inbound_demo 1 9 inbound_workflow
      (new_inbound-IsFresh inbound_demo 1 (make 1) 0)

inbound_joins_example : (Inbound.sequence inbound_demo 1 9 inbound_workflow).0 ≢ terminated
inbound_joins_example =
    inbound_joins inbound_demo 1 9 inbound_workflow (new_inbound-IsFresh inbound_demo 1 (make 1) 0)

abbrev iv_demo : World
iv_demo = record demo {
  url_param = λ n key. if text_eq key (codes "caller") then phone else param_of n key;
  body = λ n. codes "h/ch-usr_1/iv_pin_inserted";
  others = λ n. (alive_turn ∷ request_turn 0 0 ∷ event_turn (n % 4) ∷ [], n + 1);
}

abbrev iv_workflow : Iv.IvSystem iv_demo
iv_workflow = Iv.new_workflow iv_demo 1 (make 1) 0

iv_rounds-phase_example :
    (p : Place (IvProtocol.account iv_demo)) × (phase
        (IvProtocol.account iv_demo).machine
        (Iv.sequence iv_demo 1 9 iv_workflow).1.log
      ≡ some p)
iv_rounds-phase_example =
    iv_rounds-phase iv_demo 1 9 iv_workflow (new_iv-IsFresh iv_demo 1 (make 1) 0)

iv-IsTraced_example :
    let s = (Iv.sequence iv_demo 1 9 iv_workflow).1 in IsTraced iv_demo s.log s.inserted
iv-IsTraced_example = iv-IsTraced iv_demo 1 9 iv_workflow (new_iv-IsFresh iv_demo 1 (make 1) 0)

iv_joins_example : (Iv.sequence iv_demo 1 9 iv_workflow).0 ≢ terminated
iv_joins_example = iv_joins iv_demo 1 9 iv_workflow (new_iv-IsFresh iv_demo 1 (make 1) 0)

incoming_flag_example :
    let t = inbound_workflow.own.tracker in
    Follows inbound_demo (inbound_demo.twilio_event_type 2) t (inbound_event inbound_demo 2 t).1
    × Follows inbound_demo (inbound_demo.twilio_event_type 2) t (iv_event inbound_demo 2 t).1
    × Keeps inbound_demo t.call_bridged t.lead_customer_phone (inbound_request inbound_demo 2 t).1
    × Keeps inbound_demo t.call_bridged t.lead_customer_phone (iv_request inbound_demo 2 0 t).1
incoming_flag_example = incoming_flag inbound_demo 2 0 inbound_workflow.own.tracker

-- A round of each that is answered well comes back to where it began, with a call that was bridged.
rounds_go_on :
    (let (o, s) = Inbound.sequence inbound_demo 1 9 inbound_workflow in
      (o ≡ unfinished)
      × (phase (InboundProtocol.account inbound_demo).machine s.log
          ≡ some (InboundProtocol.stage InboundProtocol.Stage.seeded [] [])))
    × (let (o, s) = Iv.sequence iv_demo 1 9 iv_workflow in
        (o ≡ unfinished)
        × (phase (IvProtocol.account iv_demo).machine s.log
            ≡ some (IvProtocol.stage IvProtocol.Stage.seeded [] [] [])))
unfolding runs Inbound.sequence Iv.sequence
rounds_go_on = ((refl, refl), (refl, refl))

address_sessions_example :
    (user_session (address user_mark (codes "twilio") (codes "12") []) ≡ some (codes "h-usr_12"))
    × (agent_session (address agent_mark (codes "twilio") (codes "12") [])
        ≡ some (codes "ch-agt_1"))
address_sessions_example = address_sessions (codes "twilio") (codes "12") [] refl refl (omega arith)
