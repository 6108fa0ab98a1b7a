-- ===== src/Twilio/IncomingLaws.antt =====
-- What the handlers of InboundWorkflow.cpp and IVWorkflow.cpp do to the fields that track a call.
use delfos.Prelude.{refl, Bool, true, Option, Text, codes, text_eq}
use delfos.World.{World, TwilioEventType, call, bridge, hangup, other}
use delfos.Monad.{M, gets, modify, pure, ◌>>=◌}
use delfos.Monad.Triple.{Triple-pure, Triple-if, Post-collapse, ◌⟫◌}
use delfos.Twilio.{Tracker, agent_session, set_bridged}
use delfos.Twilio.Laws.{
  Keeps, Kept, Follows, or_throw-Keeps, set_call-Keeps, on_bridge_flag, answered,
}
use delfos.Twilio.Incoming.{
  on_agent_call, on_inbound_event, inbound_event, inbound_request, on_iv_event, iv_event,
  iv_request, inbound_session,
}

module _ (W : World) where
  module _ (b : Bool) (phone : Text) where
    phone-Keeps : Kept W b phone (gets (λ t. t.lead_customer_phone))
    unfolding gets
    phone-Keeps = record { at = λ t h. h }

    on_agent_call-Keeps :
        (session_of : Text → Option Text) (http : W.Http)
        → Kept W b phone (on_agent_call W session_of http)
    unfolding on_agent_call
    on_agent_call-Keeps session_of http = phone-Keeps ⟫ λ p.
        Triple-if (text_eq (W.url_param http (codes "from")) p)
          (λ _. or_throw-Keeps W b phone _ ⟫ λ session. set_call-Keeps W b phone _)
          (λ _. Triple-pure tt)

    inbound_request-Keeps : (http : W.Http) → Kept W b phone (inbound_request W http)
    unfolding inbound_request
    inbound_request-Keeps http = phone-Keeps ⟫ λ p.
        Triple-if (text_eq (W.url_param http (codes "caller")) p) (λ _. set_call-Keeps W b phone _)
          (λ _. Triple-pure tt)
        ⟫ λ _. Triple-pure true

    iv_request-Keeps : (http response : W.Http) → Kept W b phone (iv_request W http response)
    unfolding iv_request
    iv_request-Keeps http response = phone-Keeps ⟫ λ p.
        Triple-if (text_eq (W.url_param http (codes "caller")) p)
          (λ _. or_throw-Keeps W b phone _ ⟫ λ session. set_call-Keeps W b phone _)
          (λ _. Triple-pure tt)
        ⟫ λ _. Triple-pure true

  -- Code that keeps the phone and the flag, whatever they are.
  phone_and_flag :
      {A : Type 0} (m : M (Tracker W.Call) A)
      → ((b : Bool) (phone : Text) → Kept W b phone m)
      → (t : Tracker W.Call) → Keeps W t.call_bridged t.lead_customer_phone (m t).1
  phone_and_flag m keeps t =
      Post-collapse (Keeps W t.call_bridged t.lead_customer_phone) (m t).0 (m t).1 (
        (keeps t.call_bridged t.lead_customer_phone).at t
          (record { flag = refl; same_phone = refl }))

  on_inbound_event_flag :
      (e : TwilioEventType) (http : W.Http) (t : Tracker W.Call)
      → Follows W e t (on_inbound_event W e http t).1
  unfolding on_inbound_event set_bridged modify pure
  on_inbound_event_flag call http t =
      let kept =
        phone_and_flag (on_agent_call W inbound_session http)
          (λ b phone. on_agent_call-Keeps b phone inbound_session http) t in
      (kept.same_phone, kept.flag)
  on_inbound_event_flag bridge http t = on_bridge_flag W _ _ t
  on_inbound_event_flag hangup http t = (refl, refl)
  on_inbound_event_flag other http t = (refl, refl)

  on_iv_event_flag :
      (e : TwilioEventType) (http : W.Http) (t : Tracker W.Call)
      → Follows W e t (on_iv_event W e http t).1
  unfolding on_iv_event set_bridged modify pure
  on_iv_event_flag call http t =
      let kept =
        phone_and_flag (on_agent_call W agent_session http)
          (λ b phone. on_agent_call-Keeps b phone agent_session http) t in
      (kept.same_phone, kept.flag)
  on_iv_event_flag bridge http t = on_bridge_flag W _ _ t
  on_iv_event_flag hangup http t = (refl, refl)
  on_iv_event_flag other http t = (refl, refl)

  -- Whatever Twilio reports or asks, the handlers of InboundWorkflow and IVWorkflow keep the phone of
  -- the customer, and a request keeps the flag on which `sequence` waits. A hangup lowers it; a
  -- bridge event raises it if both channels of the call are bridged then, and lowers it never; the
  -- other events, a call that throws among them, leave it as it was.
  pub incoming_flag :
      (http response : W.Http) (t : Tracker W.Call)
      → Follows W (W.twilio_event_type http) t (inbound_event W http t).1
        × Follows W (W.twilio_event_type http) t (iv_event W http t).1
        × Keeps W t.call_bridged t.lead_customer_phone (inbound_request W http t).1
        × Keeps W t.call_bridged t.lead_customer_phone (iv_request W http response t).1
  unfolding inbound_event iv_event ◌>>=◌
  incoming_flag http response t =
      let e = W.twilio_event_type http in
      (
        answered W (Follows W e t) (on_inbound_event W e http t).0 _
            (on_inbound_event_flag e http t),
        answered W (Follows W e t) (on_iv_event W e http t).0 _ (on_iv_event_flag e http t),
        phone_and_flag (inbound_request W http) (λ b phone. inbound_request-Keeps b phone http) t,
        phone_and_flag (iv_request W http response)
            (λ b phone. iv_request-Keeps b phone http response) t,
      )
