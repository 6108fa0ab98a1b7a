-- ===== src/Trace.antt =====
-- model/session/elements/RequestTrace.h and RequestTrace.cpp: `RequestTrace`. `J` is `WJson`, which
-- the repository does not hold. A time is the number of nanoseconds that `system_clock` counts.
pub mod Laws
use delfos.Prelude.{
  ℕ, ◌+◌, ◌-◌, ◌/◌, ◌%◌, ◌^◌, Bool, true, false, ◌&&◌, List, [], ◌∷◌, Text, codes, text_eq, flag_eq,
  leb, ◌==◌, if◌then◌else◌,
}

-- `uint`
abbrev pub uint_mod : ℕ
uint_mod = 2 ^ 32

abbrev pub ns_per_ms : ℕ
ns_per_ms = 1_000_000

pub record RequestTrace (J : Type 0) : Type 0 where
  pub request : J
  pub response : J
  pub request_timestamp : ℕ
  pub duration : ℕ
  pub guid : Text
  pub command : Text
  pub thread_id : ℕ
  pub workflow_name : Text
  pub success : Bool

-- What `append_pair_to_json` appends.
pub data Value : Type 0 where
  text : Text → Value
  flag : Bool → Value
  number : ℕ → Value

-- `duration_cast<milliseconds>(now - start).count()`, stored in a `uint`. The difference is signed:
-- the clock may have been set back.
unfoldable pub elapsed : ℕ → ℕ → ℕ
elapsed now start =
    if leb start now
    then (now - start) / ns_per_ms % uint_mod
    else (uint_mod - (start - now) / ns_per_ms % uint_mod) % uint_mod

module _ {J : Type 0} where
  -- The constructors. `blank` is `WJson()`, `now` and `guid` are the clock and `NewGuid()`.
  unfoldable pub start : J → ℕ → Text → Text → Text → ℕ → RequestTrace J
  start blank now guid workflow_name command thread_id = record {
    request = blank;
    response = blank;
    request_timestamp = now;
    duration = 0;
    guid = guid;
    command = command;
    thread_id = thread_id;
    workflow_name = workflow_name;
    success = false;
  }

  unfoldable pub default : J → ℕ → Text → RequestTrace J
  unfolding start
  default blank now guid = start blank now guid [] [] 0

  unfoldable pub set_duration : ℕ → RequestTrace J → RequestTrace J
  unfolding elapsed
  set_duration now t = record t { duration = elapsed now t.request_timestamp }

  unfoldable pub set_response : ℕ → Bool → J → RequestTrace J → RequestTrace J
  unfolding set_duration
  set_response now success response t = record (set_duration now t) {
    success = success;
    response = response;
  }

  -- `swap` gives the new `*this` and the new `other`.
  unfoldable pub swap : RequestTrace J → RequestTrace J → RequestTrace J × RequestTrace J
  swap a b = (
    record a {
      request = b.request;
      response = b.response;
      request_timestamp = b.request_timestamp;
      duration = b.duration;
      guid = b.guid;
      command = b.command;
      thread_id = b.thread_id;
      workflow_name = b.workflow_name;
      success = b.success;
    },
    record b {
      request = a.request;
      response = a.response;
      request_timestamp = a.request_timestamp;
      duration = a.duration;
      guid = a.guid;
      command = a.command;
      thread_id = a.thread_id;
      workflow_name = a.workflow_name;
      success = a.success;
    },
  )

  -- The copy constructor.
  unfoldable pub copy : RequestTrace J → RequestTrace J
  copy t = record {
    request = t.request;
    response = t.response;
    request_timestamp = t.request_timestamp;
    duration = t.duration;
    guid = t.guid;
    command = t.command;
    thread_id = t.thread_id;
    workflow_name = t.workflow_name;
    success = t.success;
  }

  -- `operator=` takes its argument by value and swaps with it.
  unfoldable pub assign : RequestTrace J → RequestTrace J → RequestTrace J
  unfolding swap copy
  assign a b = (swap a (copy b)).0

  -- `WJson::Clear` is `wipe`.
  unfoldable pub clear : (J → J) → ℕ → RequestTrace J → RequestTrace J
  clear wipe now t = record {
    request = wipe t.request;
    response = wipe t.response;
    request_timestamp = now;
    duration = 0;
    guid = [];
    command = [];
    thread_id = 0;
    workflow_name = [];
    success = false;
  }

  -- `operator==`, with `same` for the equality of `WJson`. Its last two tests compare a field of
  -- `*this` with itself.
  unfoldable pub equals : (J → J → Bool) → RequestTrace J → RequestTrace J → Bool
  equals same a b =
      same a.request b.request
      && (same a.response b.response
          && (a.request_timestamp == b.request_timestamp
              && (a.duration == b.duration
                  && (text_eq a.guid b.guid
                      && (text_eq a.command b.command
                          && (a.thread_id == b.thread_id
                              && (text_eq a.workflow_name a.workflow_name
                                  && flag_eq a.success a.success)))))))

  -- The pairs that `append_to_json_obj` appends, in order. `to_str` is `WJson::to_str` and
  -- `as_db_string` is that of the core library.
  unfoldable pub append_to_json_obj : (J → Text) → (ℕ → Text) → RequestTrace J → List (Text × Value)
  append_to_json_obj to_str as_db_string t =
      (codes "guid", text t.guid)
      ∷ (codes "workflow_name", text t.workflow_name)
      ∷ (codes "success", flag t.success)
      ∷ (codes "command", text t.command)
      ∷ (codes "thread_id", number t.thread_id)
      ∷ (codes "request", text (to_str t.request))
      ∷ (codes "request_timestamp", text (as_db_string t.request_timestamp))
      ∷ (codes "response", text (to_str t.response))
      ∷ (codes "duration", number t.duration)
      ∷ []
