-- ===== src/World.antt =====
-- What the workflows use of code that the repository does not hold: the core library (`LMTester`,
-- `GARITester`, `WJson`, `Call`, `WHttp`, `TwilioMockup`, `WizardBucket`, the enumerations), the
-- servers behind it, clocks, random numbers and the scheduler. It is a parameter of the model.
pub mod Requests
use delfos.Prelude.{ℕ, Bool, List, Text}
use Requests.{Request, Event}

-- `wc::twilio_event_type`; `other` stands for the members that the handlers do not name.
pub data TwilioEventType : Type 0 where
  call bridge hangup other : TwilioEventType

-- What another thread does at a scheduling point: the alive thread makes a round, or the Twilio
-- mockup reports an event, or a request with its response.
pub data Turn (Http : Type 0) : Type 0 where
  alive_turn : Turn Http
  event_turn : Http → Turn Http
  request_turn : Http → Http → Turn Http

-- The getters of `WizardBucket`. `relations` are the `get_vagroup_id()` of the branch group's
-- relations.
pub record Bucket : Type 0 where
  pub agents : List Text
  pub relations : List Text
  pub vacenter : Text
  pub branch : Text
  pub branchgroups_delfosnar : List Text
  pub branches_delfosnar : List Text
  pub iv_phone : Text
  pub inbound_phone : Text

-- The constants of the core library by which the answers are read: `WAGENT_KEY_STR_SESSION_ID`,
-- `helper_capitalize(XML_TAG_DATA)`, `LEAD_KEY_STR_LEAD`, `LEAD_KEY_STR_GUID`,
-- `LEAD_KEY_STR_SESSION`, `ROOM_KEY_STR_USER_ID`, `LM_PBX_OUTPUT_TAG_RETURN`,
-- `LM_PBX_INPUT_TAG_DATA_KEY`, `WHISBINAR_KEY_STR_CLASS`, `wcct::guid`.
pub record Keys : Type 0 where
  pub session_id : Text
  pub data_tag : Text
  pub lead : Text
  pub lead_guid : Text
  pub lead_session : Text
  pub room_user_id : Text
  pub pin_return : Text
  pub pin_key : Text
  pub delfosnar : Text
  pub delfosnar_guid : Text

pub record World : Type 1 where
  pub State : Type 0
  pub Json : Type 0
  pub Http : Type 0
  pub Call : Type 0
  pub Channel : Type 0
  -- A request of a tester: whether it succeeded, and what `json_response` holds then.
  pub perform : Request → State → Bool × Json × State
  -- `TwilioMockup::request_call_iv` and `request_call_inbound`
  pub request_call : List Text → State → State
  -- `_process_can_continue.load()`
  pub can_continue : State → Bool × State
  -- `system_clock::now()`, in nanoseconds
  pub now : State → ℕ × State
  -- `sleep_for`, in milliseconds
  pub sleep : ℕ → State → State
  -- `_unif_dist(_random_generator)` and `_phone_uniform_dist(_random_generator)`
  pub draw_delta : State → ℕ × State
  pub draw_phone : State → ℕ × State
  -- `NewGuid()`
  pub new_guid : State → Text × State
  -- What the other threads do before this one goes on.
  pub others : State → List (Turn Http) × State
  -- `WJson`: `HasMember`, `[ ]`, `IsString`, `GetString`, `IsUint`, `GetUint`, `IsObject`
  pub blank : Json
  pub has_member : Json → Text → Bool
  pub member : Json → Text → Json
  pub is_string : Json → Bool
  pub get_string : Json → Text
  pub is_uint : Json → Bool
  pub get_uint : Json → ℕ
  pub is_object : Json → Bool
  -- `Call` and its two channels, which the getters return by reference
  pub new_call : Call
  pub clear_call : Call → Call
  pub user_channel : Call → Channel
  pub set_user_channel : Channel → Call → Call
  pub agent_channel : Call → Channel
  pub set_agent_channel : Channel → Call → Call
  pub is_call_agent_user_bridged : Call → Bool
  pub channel_call : Channel → Channel
  pub pbx_ok : Channel → Channel
  pub channel_bridge : Channel → Channel
  pub set_twilio_session : Text → Channel → Channel
  pub twilio_session : Channel → Text
  -- `WHttp` and `TwilioMockup::get_twilio_event_type`
  pub url_param : Http → Text → Text
  pub path : Http → Text
  pub body : Http → Text
  pub twilio_event_type : Http → TwilioEventType
  -- `as_string` of the event enumerations, `std::to_string`
  pub as_string : Event → Text
  pub to_string : ℕ → Text
  pub keys : Keys
  pub bucket : Bucket
  -- `EnzoConfiguration`: `request_trace_enable` and `delta_periodic`; `gettid`
  pub trace_enable : Bool
  pub periodic_delta : ℕ
  pub thread_id : ℕ
