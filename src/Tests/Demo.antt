-- ===== src/Tests/Demo.antt =====
-- A world in which every request succeeds and the call is bridged after a while.
use Prim.Native.Nat.{ℕ, zero, suc, ◌+◌, ◌%◌}
use delfos.Prelude.{Bool, true, false, ◌&&◌, [], ◌∷◌, Text, codes, ◌==◌, if◌then◌else◌}
use delfos.Barrier.{make}
use delfos.Trace.{default}
use delfos.World.{World, call, bridge, alive_turn, event_turn, Bucket, Keys}
use delfos.Workflow.State.{Fields, System, AliveThread}

pub data Json : Type 0 where
  nil : Json
  str : Text → Json
  num : ℕ → Json
  obj : Json → Json

pub record Channel : Type 0 where
  pub session : Text
  pub bridged : Bool

-- The four events that Twilio reports, in turn.
abbrev pub url_of : ℕ → Text
url_of zero = codes "h/ch-usr_1/calling_response"
url_of (suc zero) = codes "h/ch-agt_1/calling_response"
url_of (suc (suc zero)) = codes "h/ch-usr_1/bridge"
url_of (suc (suc (suc n))) = codes "h/ch-agt_1/bridge"

abbrev pub param_of : ℕ → Text → Text
param_of n key = elim key [
  | [] ↦ []
  | k ∷ _ ↦
      if k == b'u'
      then url_of n
      else if (k == b't') && (n == 0)
      then codes "+34659000000"
      else if (k == b'f') && (n == 1)
      then codes "+34659000000"
      else []
]

abbrev keys : Keys
keys = record {
  session_id = codes "sessionId";
  data_tag = codes "Data";
  lead = codes "lead";
  lead_guid = codes "guid";
  lead_session = codes "session";
  room_user_id = codes "user_id";
  pin_return = codes "return";
  pin_key = codes "key";
  delfosnar = codes "delfosnar";
  delfosnar_guid = codes "guid";
}

abbrev bucket : Bucket
bucket = record {
  agents = codes "a0" ∷ codes "a1" ∷ [];
  relations = codes "t2" ∷ codes "t1" ∷ codes "t2" ∷ [];
  vacenter = codes "c";
  branch = codes "b";
  branchgroups_delfosnar = codes "n0" ∷ codes "n1" ∷ [];
  branches_delfosnar = codes "m0" ∷ codes "m1" ∷ [];
  iv_phone = codes "1";
  inbound_phone = codes "2";
}

-- The state counts the scheduling points.
abbrev pub demo : World
demo = record {
  State = ℕ;
  Json = Json;
  Http = ℕ;
  Call = Channel × Channel;
  Channel = Channel;
  perform = λ r n. (true, obj (str (codes "g")), n);
  request_call = λ xs n. n;
  can_continue = λ n. (true, n);
  now = λ n. (n, n);
  sleep = λ ms n. n;
  draw_delta = λ n. (5, n);
  draw_phone = λ n. (0, n);
  new_guid = λ n. (codes "guid", n);
  others = λ n. (alive_turn ∷ event_turn (n % 4) ∷ [], n + 1);
  blank = nil;
  has_member = λ j k. true;
  member = λ j k. j;
  is_string = λ j. true;
  get_string = λ j. codes "g";
  is_uint = λ j. true;
  get_uint = λ j. 7;
  is_object = λ j. true;
  new_call = (record { session = []; bridged = false }, record { session = []; bridged = false });
  clear_call =
      λ c. (record { session = []; bridged = false }, record { session = []; bridged = false });
  user_channel = λ c. c.0;
  set_user_channel = λ x c. (x, c.1);
  agent_channel = λ c. c.1;
  set_agent_channel = λ x c. (c.0, x);
  is_call_agent_user_bridged = λ c. c.0.bridged && c.1.bridged;
  channel_call = λ x. x;
  pbx_ok = λ x. x;
  channel_bridge = λ x. record x { bridged = true };
  set_twilio_session = λ s x. record x { session = s };
  twilio_session = λ x. x.session;
  url_param = param_of;
  path = λ h. [];
  body = λ h. [];
  twilio_event_type = λ h. elim h [ zero ↦ call | suc zero ↦ call | _ ↦ bridge ];
  as_string = λ e. [];
  to_string = λ n. codes "0";
  keys = keys;
  bucket = bucket;
  trace_enable = true;
  periodic_delta = 10;
  thread_id = 42;
}

abbrev pub fresh_fields : Fields Json
fresh_fields = record {
  seed_guid = [];
  gari_user_guid = 0;
  agent_position = 1;
  workflow_running = false;
  trace = default nil 0 [];
  trace_alive = default nil 0 [];
  workflow_name = codes "cmn";
  workflow_id = 0;
}

abbrev pub fresh : {X : Type 0} → X → System demo X
fresh own = record {
  fields = fresh_fields;
  own = own;
  barrier = make 1;
  alive = AliveThread.absent;
  env = 0;
  log = [];
  inserted = [];
}
