-- ===== src/Workflow/AliveRules.antt =====
-- Rules for what the alive thread does.
use delfos.Prelude.{ℕ, not, ◌&&◌, Text, is_empty, ◌==◌, if◌then◌else◌, ltb, length}
use delfos.World.{World}
use delfos.World.Requests.{
  alive, alive_lead, read_session, read_session_user, user, desktop_alive, read_room,
}
use delfos.Monad.{threw, Res, val, exit, M, gets, modify}
use delfos.Monad.Triple.{
  Triple, Post, Triple-pure, Triple-leave, Triple-leave_unless, Triple-if, ◌⟫◌,
}
use delfos.Workflow.State.{
  System, AliveThread, absent, starting, ended, joined, active, alive_thread, set_fields,
}
use delfos.Workflow.Buckets.{get_agent_guid}
use delfos.Workflow.Calls.{store_user_id, alive_lm, alive_gari}
use delfos.Workflow.Schedule.{handle, live_round, take_guid, live_on, alive_step}
use delfos.Workflow.Rules.{View, Doing, During, Recorded, Triple-traced_alive}

module _ (W : World) {X : Type 0} (R : View W X) (c : Doing W.Json) where
  -- What a turn of another thread must come to.
  abbrev pub Quiet : {A : Type 0} → M (System W X) A → Type 0
  Quiet m = Triple (During W R c) m (λ _. During W R c) (λ _. During W R c)

  pub Quiet-gets : {A : Type 0} (f : System W X → A) → Quiet (gets f)
  unfolding gets
  Quiet-gets f = record { at = λ s h. h }

  store_user_id-Quiet : (json : W.Json) → Quiet (store_user_id W json)
  unfolding store_user_id set_fields modify
  store_user_id-Quiet json =
      let key = W.keys.room_user_id in
      Triple-if (W.has_member json key && W.is_uint (W.member json key))
        (λ _. record { at = λ s h. h }) (λ _. Triple-pure tt)

  pub alive_lm-Quiet :
      (agent session lead : Text)
      → Recorded W alive_thread desktop_alive
          (if is_empty lead then alive agent session else alive_lead agent session lead)
          R
          (λ _. R)
      → Quiet (alive_lm W agent session lead)
  unfolding alive_lm
  alive_lm-Quiet agent session lead step =
      Triple-traced_alive W R (λ _. R) c desktop_alive _ step ⟫ λ answer.
      Triple-leave_unless (λ _. During W R c) answer.0 threw (λ s h. h)

  pub alive_gari-Quiet :
      (lead : Text)
      → Recorded W alive_thread read_room (read_session lead user) R (λ _. R)
      → ((u : ℕ) → Recorded W alive_thread read_room (read_session_user lead u) R (λ _. R))
      → Quiet (alive_gari W lead)
  unfolding alive_gari
  alive_gari-Quiet lead first again = Quiet-gets (λ s. s.gari_user_guid) ⟫ λ u.
      Triple-if (u == 0)
        (λ _. Triple-traced_alive W R (λ _. R) c read_room _ first ⟫ λ answer.
          Triple-leave_unless (λ _. During W R c) answer.0 threw (λ s h. h) ⟫ λ _.
          store_user_id-Quiet answer.1)
        (λ _. Triple-traced_alive W R (λ _. R) c read_room _ (again u) ⟫ λ answer.
          Triple-leave_unless (λ _. During W R c) answer.0 threw (λ s h. h))

  take_guid-Quiet : Quiet (take_guid W)
  unfolding take_guid get_agent_guid modify
  take_guid-Quiet = Quiet-gets (λ s. s.agent_position) ⟫ λ i.
      Triple-if (not (is_empty W.bucket.agents) && ltb i (length W.bucket.agents))
        (λ _. Triple-pure _) (λ _. Triple-leave threw (λ s h. h))
      ⟫ λ guid. record { at = λ s h. h }

  handle-Quiet :
      (r : Res (Unit {0})) (s : System W X)
      → Post (λ _. During W R c) (λ _. During W R c) r s
      → Post (λ _. During W R c) (λ _. During W R c) (handle W r s).0 (handle W r s).1
  unfolding handle
  handle-Quiet (val a) s h = h
  handle-Quiet (exit e) s h = h

  live_round-Quiet :
      (round : Text → M (System W X) (Unit {0})) (guid : Text)
      → Quiet (round guid)
      → Quiet (live_round W round guid)
  unfolding live_round
  live_round-Quiet round guid quiet = record {
    at = λ s h. handle-Quiet (round guid s).0 (round guid s).1 (quiet.at s h);
  }

  -- A step of the alive thread keeps what its rounds keep.
  pub alive_step-Quiet :
      (round : Text → M (System W X) (Unit {0}))
      → ((guid : Text) → Quiet (round guid))
      → Quiet (alive_step W round)
  unfolding alive_step
  alive_step-Quiet round quiet = Quiet-gets (λ s. s.alive) ⟫ cases
    where
      cases : (t : AliveThread) → Quiet (live_on W round t)
      cases absent = Triple-pure tt
      cases ended = Triple-pure tt
      cases joined = Triple-pure tt
      cases starting = take_guid-Quiet
      cases (active guid) = live_round-Quiet round guid (quiet guid)
