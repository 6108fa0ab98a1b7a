-- ===== src/World/Requests.antt =====
-- The requests that the workflows make of the two testers, with their arguments, and the members of
-- the event enumerations under which they are traced.
use delfos.Prelude.{ℕ, Text}

-- The members of `lm_event_type` and `gari_event_type` that the workflows name.
pub data Event : Type 0 where
  desktop_getvateams_agent desktop_login_agent desktop_changestatus_agent : Event
  desktop_check_vateam desktop_alive desktop_open_session desktop_set_result : Event
  desktop_logout_agent desktop_create desktop_close : Event
  webuser_get_availability webuser_request_lead webuser_iv_new_session webuser_iv_flag : Event
  create_room update_room read_room : Event

-- `wc::agent_status`, `wc::lead_action_type`, `wc::room_user_type`
pub data AgentStatus : Type 0 where
  available busy : AgentStatus

pub data LeadAction : Type 0 where
  call_me_now call_me_back scheduled_from_landing : LeadAction

pub data RoomUser : Type 0 where
  user viewer presenter : RoomUser

-- What `request_lead` is given.
pub record Lead : Type 0 where
  pub action : LeadAction
  pub branch : Text
  pub phone : Text
  pub country : Text
  pub name : Text
  pub email : Text
  pub seed : Text
  pub scheduled : ℕ
  pub metadata : Text

pub data Request : Type 0 where
  getvateams : (agent vacenter : Text) → Request
  login : (agent : Text) → Request
  change_status : (agent session : Text) → AgentStatus → Request
  check_vateam : (agent session vateam : Text) → Request
  get_availability : (branch : Text) → Request
  request_lead : Lead → Request
  open_session : (phone agent session : Text) → Request
  set_result : (lead : Text) (result : ℕ) → Request
  logout : (agent session : Text) → Request
  alive : (agent session : Text) → Request
  alive_lead : (agent session lead : Text) → Request
  alive_branchgroup : (agent session branchgroup : Text) → Request
  create_delfosnar : (branchgroup title description seed agent session : Text) → Request
  close : (delfosnar agent session : Text) → Request
  iv_new_session : (branch : Text) → Request
  iv_flag : (pin : Text) → Request
  create_seed : (seed : Text) → Request
  update : (room : Text) (user pod : ℕ) → Request
  read_session : (room : Text) → RoomUser → Request
  read_session_user : (room : Text) (user : ℕ) → Request

-- The event that names the command of each request.
abbrev pub event_of : Request → Event
event_of (getvateams _ _) = desktop_getvateams_agent
event_of (login _) = desktop_login_agent
event_of (change_status _ _ _) = desktop_changestatus_agent
event_of (check_vateam _ _ _) = desktop_check_vateam
event_of (get_availability _) = webuser_get_availability
event_of (request_lead _) = webuser_request_lead
event_of (open_session _ _ _) = desktop_open_session
event_of (set_result _ _) = desktop_set_result
event_of (logout _ _) = desktop_logout_agent
event_of (alive _ _) = desktop_alive
event_of (alive_lead _ _ _) = desktop_alive
event_of (alive_branchgroup _ _ _) = desktop_alive
event_of (create_delfosnar _ _ _ _ _ _) = desktop_create
event_of (close _ _ _) = desktop_close
event_of (iv_new_session _) = webuser_iv_new_session
event_of (iv_flag _) = webuser_iv_flag
event_of (create_seed _) = create_room
event_of (update _ _ _) = update_room
event_of (read_session _ _) = read_room
event_of (read_session_user _ _) = read_room
