-- ===== src/Twilio/Incoming.antt =====
-- The handlers of Twilio's events and requests in InboundWorkflow.cpp and IVWorkflow.cpp, where the
-- customer calls.
use delfos.Prelude.{Bool, true, false, Option, Text, codes, text_eq}
use delfos.Text.{find, substr, sub_size}
use delfos.World.{World, TwilioEventType, call, bridge, hangup, other}
use delfos.Monad.{M, pure, gets, modify, when, ◌>>=◌, ◌>>◌}
use delfos.Twilio.{
  Tracker, agent_mark, user_mark, init_index, agent_session, user_called, agent_called, set_call,
  or_throw, on_bridge, set_bridged,
}

abbrev pub session_mark : Text
session_mark = codes "/ses_"

abbrev pub pin_mark : Text
pin_mark = codes "/iv_pin_inserted"

-- `url.substr(init_index, end_index - init_index)`, with `find("/ses_") + 1` and
-- `find("/ch-agt_") - 1`
unfoldable pub inbound_session : Text → Option Text
inbound_session url =
    let init = init_index session_mark url in
    substr init (sub_size (sub_size (find agent_mark url) 1) init) url

-- `body.substr(init_index, end_index - init_index)`, with `find("/ch-usr_") + 1` and
-- `find("/iv_pin_inserted")`
unfoldable pub pin_session : Text → Option Text
pin_session body =
    let init = init_index user_mark body in substr init (sub_size (find pin_mark body) init) body

module _ (W : World) where
  -- The branch of `call` events, which knows the agent's channel only.
  unfoldable pub on_agent_call : (Text → Option Text) → W.Http → M (Tracker W.Call) (Unit {0})
  unfolding agent_called set_call or_throw
  on_agent_call session_of http = do
    let url = W.url_param http (codes "url")
    let calling_from = W.url_param http (codes "from")
    phone ← gets (λ t. t.lead_customer_phone)
    when (text_eq calling_from phone)
        (do session ← or_throw W (session_of url); modify (set_call W (agent_called W session)))

  -- The user's session is looked for in the path.
  unfoldable pub on_inbound_event : TwilioEventType → W.Http → M (Tracker W.Call) (Unit {0})
  unfolding on_agent_call on_bridge set_bridged
  on_inbound_event call http = on_agent_call inbound_session http
  on_inbound_event bridge http = modify (on_bridge W (W.path http) (W.url_param http (codes "url")))
  on_inbound_event hangup http = modify (set_bridged W false)
  on_inbound_event other http = pure tt

  -- `InboundWorkflow::twilio_event`
  unfoldable pub inbound_event : W.Http → M (Tracker W.Call) Bool
  unfolding on_inbound_event
  inbound_event http = do on_inbound_event (W.twilio_event_type http) http; pure true

  -- `InboundWorkflow::twilio_request`
  unfoldable pub inbound_request : W.Http → M (Tracker W.Call) Bool
  unfolding user_called set_call
  inbound_request http = do
    phone ← gets (λ t. t.lead_customer_phone)
    when (text_eq (W.url_param http (codes "caller")) phone)
        (modify (set_call W (user_called W (W.url_param http (codes "callsid")))))
    pure true

  unfoldable pub on_iv_event : TwilioEventType → W.Http → M (Tracker W.Call) (Unit {0})
  unfolding on_agent_call on_bridge set_bridged
  on_iv_event call http = on_agent_call agent_session http
  on_iv_event bridge http = let url = W.url_param http (codes "url") in modify (on_bridge W url url)
  on_iv_event hangup http = modify (set_bridged W false)
  on_iv_event other http = pure tt

  -- `IVWorkflow::twilio_event`
  unfoldable pub iv_event : W.Http → M (Tracker W.Call) Bool
  unfolding on_iv_event
  iv_event http = do on_iv_event (W.twilio_event_type http) http; pure true

  -- `IVWorkflow::twilio_request`, which reads the response.
  unfoldable pub iv_request : W.Http → W.Http → M (Tracker W.Call) Bool
  unfolding user_called set_call or_throw
  iv_request http response = do
    phone ← gets (λ t. t.lead_customer_phone)
    when (text_eq (W.url_param http (codes "caller")) phone) (do
      session ← or_throw W (pin_session (W.body response))
      modify (set_call W (user_called W session)))
    pure true
