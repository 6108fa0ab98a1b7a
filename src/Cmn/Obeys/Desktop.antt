-- ===== src/Cmn/Obeys/Desktop.antt =====
-- The first half of the loop of `CMNWorkflow` against the protocol, from the teams to the
-- availability.
use delfos.Prelude.{
  ◌≡◌, refl, sym, ap, subst, Bool, true, not, ◌&&◌, ◌||◌, List, [], ◌∷◌, Text, text_eq_refl, arith,
}
use delfos.World.{World}
use delfos.World.Requests
use delfos.World.Requests.{AgentStatus}
use delfos.Monad.{broke, gets}
use delfos.Monad.Triple.{Triple, Triple-pure, Triple-leave, Triple-if, Triple-elim, Triple-pre, ◌⟫◌}
use delfos.Workflow.Buckets.{get_branch_guid}
use delfos.Cmn.State.{CmnSystem}
use delfos.Cmn.Sequence.{Agent, getvateams, login, change_status, check_vateams, get_availability}
use delfos.Cmn.Call.{desktop}
use delfos.Cmn.Protocol.{seeded, closed, logged, ready, offered, halted, on, logged_by}
use delfos.Cmn.Obeys.Rules.{
  Fits-nothing, Fits-session, Fits-on, Standing, Out, somewhere, lock-Stands, sleep_delta-Stands,
  set_session-Stands, traced-Stands, break_if_stopped-Stands, traced_or_break-Stands,
}

module _ (W : World) where
  getvateams-Stands :
      (a : Text) (vs : List Text)
      → Triple (Standing W seeded [] []) (getvateams W a vs) (λ _. Standing W seeded [] []) (Out W)
  unfolding getvateams
  getvateams-Stands a [] = Triple-pure tt
  getvateams-Stands a (v ∷ vs) =
      traced-Stands W seeded [] [] (λ _. seeded) (Requests.getvateams a v) (λ _. refl)
        (λ _. Fits-nothing seeded)
      ⟫ λ answer. Triple-elim answer.0 (getvateams-Stands a vs) (Triple-pure tt)

  -- An answer that holds a session's guid.
  holds_session : W.Json → Bool
  holds_session json =
      W.has_member json W.keys.session_id && W.is_string (W.member json W.keys.session_id)

  take_session :
      (json : W.Json) (v : Text)
      → W.get_string (W.member json W.keys.session_id) ≡ v
      → holds_session json ≡ true
      → (s : CmnSystem W) → Standing W (logged_by W json) [] [] s
      → Standing W (logged v) [] [] s
  unfolding holds_session
  take_session json v e h s st = subst (λ p. Standing W p [] [] s) (rw h (ap logged e)) st

  taken :
      (v : Text)
      → Triple
          (Standing W (logged v) v [])
          (gets (λ s. s.own.session_guid))
          (λ s. Standing W (logged s) s [])
          (Out W)
  unfolding gets
  taken v = record { at = λ s h. subst (λ a. Standing W (logged a) a [] s) (sym h.session_kept) h }

  login-Stands :
      (a : Text)
      → Triple (Standing W seeded [] []) (login W a) (λ s. Standing W (logged s) s []) (Out W)
  unfolding login holds_session
  login-Stands a =
      traced_or_break-Stands W seeded [] [] (λ (ok, json). on ok (logged_by W json) closed)
        (Requests.login a) (λ _. refl) (λ _. Fits-nothing _)
      ⟫ λ json.
          let key = W.keys.session_id in
          let v = W.get_string (W.member json key) in
          Triple-if (not (W.has_member json key) || not (W.is_string (W.member json key)))
            (λ _. Triple-leave broke (somewhere W (logged_by W json) [] []))
            (λ e.
              Triple-pre (take_session json v refl (ground arith))
                (Triple-pure {Q = λ _. Standing W (logged v) [] []} tt))
          ⟫ λ _. lock-Stands W (logged v) [] [] ⟫ λ _.
              set_session-Stands W (logged v) [] [] v (Fits-session (logged v) v refl) ⟫ λ _.
              taken v

  change_status-Stands :
      (a v : Text)
      → Triple
          (Standing W (logged v) v [])
          (change_status W a v)
          (λ _. Standing W (ready v) v [])
          (Out W)
  unfolding change_status
  change_status-Stands a v =
      traced_or_break-Stands W (logged v) v [] (λ (ok, _). on ok (ready v) (halted v []))
        (Requests.change_status a v AgentStatus.available) (λ _. rw (text_eq_refl v))
        (λ (ok, _).
          Fits-on ok (ready v) (halted v []) (Fits-session (ready v) v refl)
            (Fits-session (halted v []) v refl))
      ⟫ λ _. Triple-pure tt

  check_vateams-Stands :
      (a v : Text) (teams : List Text)
      → Triple
          (Standing W (ready v) v [])
          (check_vateams W a v teams)
          (λ _. Standing W (ready v) v [])
          (Out W)
  unfolding check_vateams
  check_vateams-Stands a v [] = Triple-pure tt
  check_vateams-Stands a v (team ∷ teams) =
      traced_or_break-Stands W (ready v) v [] (λ (ok, _). on ok (ready v) (halted v []))
        (Requests.check_vateam a v team) (λ _. rw (text_eq_refl v))
        (λ (ok, _).
          Fits-on ok (ready v) (halted v []) (Fits-session (ready v) v refl)
            (Fits-session (halted v []) v refl))
      ⟫ λ _. check_vateams-Stands a v teams

  get_availability-Stands :
      (v : Text)
      → Triple
          (Standing W (ready v) v [])
          (get_availability W)
          (λ _. Standing W (offered v) v [])
          (Out W)
  unfolding get_availability get_branch_guid
  get_availability-Stands v = Triple-pure W.bucket.branch ⟫ λ b.
      traced_or_break-Stands W (ready v) v [] (λ (ok, _). on ok (offered v) (halted v []))
        (Requests.get_availability b) (λ _. refl)
        (λ (ok, _).
          Fits-on ok (offered v) (halted v []) (Fits-session (offered v) v refl)
            (Fits-session (halted v []) v refl))
      ⟫ λ _. Triple-pure b

  -- The first half of the loop leads from a seed to an offer, for the session that it gives.
  pub desktop-Stands :
      (a : Agent)
      → Triple
          (Standing W seeded [] [])
          (desktop W a)
          (λ (v, _). Standing W (offered v) v [])
          (Out W)
  unfolding desktop
  desktop-Stands a = break_if_stopped-Stands W seeded [] [] ⟫ λ _.
      sleep_delta-Stands W seeded [] [] ⟫ λ _.
      getvateams-Stands a.agent_guid a.agent_vacenters ⟫ λ _.
      sleep_delta-Stands W seeded [] [] ⟫ λ _. break_if_stopped-Stands W seeded [] [] ⟫ λ _.
      login-Stands a.agent_guid ⟫ λ v. sleep_delta-Stands W (logged v) v [] ⟫ λ _.
      break_if_stopped-Stands W (logged v) v [] ⟫ λ _. change_status-Stands a.agent_guid v ⟫ λ _.
      sleep_delta-Stands W (ready v) v [] ⟫ λ _. break_if_stopped-Stands W (ready v) v [] ⟫ λ _.
      check_vateams-Stands a.agent_guid v a.agent_vateams ⟫ λ _. get_availability-Stands v ⟫ λ b.
      sleep_delta-Stands W (offered v) v [] ⟫ λ _.
      break_if_stopped-Stands W (offered v) v [] ⟫ λ _. Triple-pure (v, b)
