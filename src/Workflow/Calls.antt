-- ===== src/Workflow/Calls.antt =====
-- The requests that `Workflow` itself makes: the seed of a room, its update, and the alives.
use delfos.Prelude.{
  ℕ, ◌-◌, not, ◌&&◌, ◌++◌, Text, codes, ◌==◌, is_empty, length, take, replicate, if◌then◌else◌,
}
use delfos.World.{World}
use delfos.World.Requests.{
  alive, alive_lead, read_session, read_session_user, user, desktop_alive, read_room,
}
use delfos.Monad.{M, pure, leave_if, when, threw, gets, modify, ◌>>=◌, ◌>>◌}
use delfos.Workflow.State.{System, ask, set_fields}
use delfos.Workflow.Traces.{traced_alive}

abbrev pub workflow_phone : Text
workflow_phone = codes "+34659652236"

-- `WORKFLOW_CHATFILE_POD`
abbrev pub workflow_chatfile_pod : ℕ
workflow_chatfile_pod = 0

-- `std::string::resize`
unfoldable pub resize : ℕ → ℕ → Text → Text
resize n c xs = take n xs ++ replicate (n - length xs) c

-- The phone for the digits that were drawn.
unfoldable pub random_phone : Text → Text
unfolding resize
random_phone digits = resize 12 b'0' (take (length workflow_phone - 6) workflow_phone ++ digits)

module _ (W : World) {X : Type 0} where
  unfoldable pub generate_random_phone : M (System W X) Text
  unfolding random_phone
  generate_random_phone = do drawn ← ask W W.draw_phone; pure (random_phone (W.to_string drawn))

  -- The answer's user id, if it has one, becomes the current one.
  unfoldable pub store_user_id : W.Json → M (System W X) (Unit {0})
  store_user_id json =
      let key = W.keys.room_user_id in
      when (W.has_member json key && W.is_uint (W.member json key))
        (modify (set_fields W (λ f. record f { gari_user_guid = W.get_uint (W.member json key) })))

  unfoldable pub alive_lm : Text → Text → Text → M (System W X) (Unit {0})
  alive_lm agent_guid session_guid lead_guid = do
    answer ← traced_alive W desktop_alive (
        if is_empty lead_guid
        then alive agent_guid session_guid
        else alive_lead agent_guid session_guid lead_guid)
    leave_if (not answer.0) threw

  -- The two branches of `alive_gari`: with no user yet, and with one.
  unfoldable pub first_read : Text → M (System W X) (Unit {0})
  unfolding store_user_id
  first_read lead_guid = do
    answer ← traced_alive W read_room (read_session lead_guid user)
    leave_if (not answer.0) threw
    store_user_id answer.1

  unfoldable pub next_read : Text → ℕ → M (System W X) (Unit {0})
  next_read lead_guid user_guid = do
    answer ← traced_alive W read_room (read_session_user lead_guid user_guid)
    leave_if (not answer.0) threw

  unfoldable pub alive_gari : Text → M (System W X) (Unit {0})
  unfolding first_read next_read
  alive_gari lead_guid = do
    user_guid ← gets (λ s. s.gari_user_guid)
    if user_guid == 0 then first_read lead_guid else next_read lead_guid user_guid
