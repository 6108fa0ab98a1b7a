-- ===== src/Twilio.antt =====
-- The handler of Twilio's events that CMNWorkflow.cpp defines, over the fields that track a call.
pub mod Laws
pub mod Incoming
pub mod IncomingLaws
pub mod Sessions
use delfos.Prelude.{
  ℕ, Bool, true, false, not, Option, none, some, Text, codes, text_eq, ◌==◌, if◌then◌else◌,
}
use delfos.Text.{npos, find, substr, add_size, sub_size}
use delfos.World.{World, TwilioEventType, call, bridge, hangup, other}
use delfos.Monad.{M, pure, leave, threw, gets, modify, when, ◌>>=◌, ◌>>◌}

-- `_lead_customer_phone`, `_call`, `_call_bridged`
pub record Tracker (C : Type 0) : Type 0 where
  pub lead_customer_phone : Text
  pub call : C
  pub call_bridged : Bool

abbrev pub user_mark : Text
user_mark = codes "/ch-usr_"

abbrev pub agent_mark : Text
agent_mark = codes "/ch-agt_"

abbrev pub response_mark : Text
response_mark = codes "/calling_response"

-- `find(mark) + 1` and `find("/calling_response") - 1`
unfoldable pub init_index : Text → Text → ℕ
init_index mark url = add_size (find mark url) 1

unfoldable pub end_index : Text → ℕ
end_index url = sub_size (find response_mark url) 1

-- `url.substr(init_index + 1, end_index - init_index)`
unfoldable pub user_session : Text → Option Text
unfolding init_index end_index
user_session url =
    let init = init_index user_mark url in
    substr (add_size init 1) (sub_size (end_index url) init) url

-- `url.substr(init_index, end_index - init_index)`
unfoldable pub agent_session : Text → Option Text
unfolding init_index end_index
agent_session url =
    let init = init_index agent_mark url in substr init (sub_size (end_index url) init) url

-- `text.find(part) != std::string::npos`
unfoldable pub contains : Text → Text → Bool
contains text part = not (find part text == npos)

module _ (W : World) where
  abbrev pub on_user : (W.Channel → W.Channel) → W.Call → W.Call
  on_user f c = W.set_user_channel (f (W.user_channel c)) c

  abbrev pub on_agent : (W.Channel → W.Channel) → W.Call → W.Call
  on_agent f c = W.set_agent_channel (f (W.agent_channel c)) c

  unfoldable pub set_call : (W.Call → W.Call) → Tracker W.Call → Tracker W.Call
  set_call f t = record t { call = f t.call }

  -- `channel.call(); channel.pbx_ok(); channel.set_twilio_session(session)`
  unfoldable pub user_called : Text → W.Call → W.Call
  user_called session c =
      on_user (W.set_twilio_session session) (on_user W.pbx_ok (on_user W.channel_call c))

  unfoldable pub agent_called : Text → W.Call → W.Call
  agent_called session c =
      on_agent (W.set_twilio_session session) (on_agent W.pbx_ok (on_agent W.channel_call c))

  -- `channel.bridge(); channel.pbx_ok()`
  unfoldable pub user_bridged : W.Call → W.Call
  user_bridged c = on_user W.pbx_ok (on_user W.channel_bridge c)

  unfoldable pub agent_bridged : W.Call → W.Call
  agent_bridged c = on_agent W.pbx_ok (on_agent W.channel_bridge c)

  -- An exception of `substr` leaves the handler.
  unfoldable pub or_throw : Option Text → M (Tracker W.Call) Text
  or_throw none = leave threw
  or_throw (some x) = pure x

  unfoldable pub set_bridged : Bool → Tracker W.Call → Tracker W.Call
  set_bridged b t = record t { call_bridged = b }

  -- The branch of `call` events.
  unfoldable pub on_call : W.Http → M (Tracker W.Call) (Unit {0})
  unfolding user_session agent_session user_called agent_called or_throw set_call
  on_call http = do
    let url = W.url_param http (codes "url")
    let calling_to = W.url_param http (codes "to")
    let calling_from = W.url_param http (codes "from")
    phone ← gets (λ t. t.lead_customer_phone)
    when (text_eq calling_to phone)
        (do session ← or_throw (user_session url); modify (set_call (user_called session)))
    when (text_eq calling_from phone)
        (do session ← or_throw (agent_session url); modify (set_call (agent_called session)))

  -- The branch of `bridge` events, `where_user` being the text that is searched for the user's
  -- session.
  unfoldable pub on_bridge : Text → Text → Tracker W.Call → Tracker W.Call
  unfolding contains user_bridged agent_bridged set_bridged set_call
  on_bridge where_user url t =
      let twilio_user_session = W.twilio_session (W.user_channel t.call) in
      let twilio_agent_session = W.twilio_session (W.agent_channel t.call) in
      let t' =
        if contains where_user twilio_user_session
        then set_call user_bridged t
        else if contains url twilio_agent_session
        then set_call agent_bridged t
        else t in
      if W.is_call_agent_user_bridged t'.call then set_bridged true t' else t'

  -- What each type of event does.
  unfoldable pub on_event : TwilioEventType → W.Http → M (Tracker W.Call) (Unit {0})
  unfolding on_call on_bridge set_bridged
  on_event call http = on_call http
  on_event bridge http = let url = W.url_param http (codes "url") in modify (on_bridge url url)
  on_event hangup http = modify (set_bridged false)
  on_event other http = pure tt

  -- `CMNWorkflow::twilio_event`
  unfoldable pub lead_event : W.Http → M (Tracker W.Call) Bool
  unfolding on_event
  lead_event http = do on_event (W.twilio_event_type http) http; pure true
