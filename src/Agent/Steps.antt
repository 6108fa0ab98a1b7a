-- ===== src/Agent/Steps.antt =====
-- The steps of the loop of `AgentWorkflow` against the protocol.
use delfos.Prelude.{
  ◌≡◌, refl, sym, ap, subst, inl, inr, Bool, true, not, ◌&&◌, ◌||◌, List, [], ◌∷◌, some, Text,
  text_eq_refl, arith,
}
use delfos.World.{World}
use delfos.World.Requests
use delfos.World.Requests.{Request, AgentStatus, desktop_alive, alive}
use delfos.Monad.{broke, gets}
use delfos.Monad.Triple.{Triple, Triple-pure, Triple-leave, Triple-if, Triple-elim, Triple-pre, ◌⟫◌}
use delfos.Workflow.State.{sequence_thread}
use delfos.Workflow.Rules.{Triple-traced}
use delfos.Cmn.Protocol.{on}
use delfos.Agent.{
  AgentSystem, Desk, traced_or_break, getvateams, login, change_status, check_vateams, logout, body,
}
use delfos.Agent.Protocol.{
  Phase, away, logged, ready, halted, session_of, traced_as, logged_by, sequence_next,
}
use delfos.Agent.Obeys.{
  Fits-on, At, advance, turn-KeptBy, Standing, somewhere, Out, lock-Stands, pause-Stands,
  stop-Stands, set_session-Stands, traced_or_break-Stands,
}

module _ (W : World) where
  getvateams-Stands :
      (a : Text) (vs : List Text)
      → Triple (Standing W away []) (getvateams W a vs) (λ _. Standing W away []) (Out W)
  unfolding getvateams
  getvateams-Stands a [] = Triple-pure tt
  getvateams-Stands a (v ∷ vs) =
      let r = Requests.getvateams a v in
      Triple-traced W (turn-KeptBy W away []) (λ _. At W away []) (λ _. turn-KeptBy W away [])
        (traced_as r) r
        (advance W sequence_thread r away (λ _. away) [] (λ _. refl) (λ _. inl refl))
      ⟫ λ answer. Triple-elim answer.0 (getvateams-Stands a vs) (Triple-pure tt)

  take_session :
      (json : W.Json) (v : Text)
      → W.get_string (W.member json W.keys.session_id) ≡ v
      → (W.has_member json W.keys.session_id && W.is_string (W.member json W.keys.session_id))
        ≡ true
      → (s : AgentSystem W) → Standing W (logged_by W json) [] s
      → Standing W (logged v) [] s
  take_session json v e h s st = subst (λ p. Standing W p [] s) (rw h (ap logged e)) st

  taken :
      (v : Text)
      → Triple
          (Standing W (logged v) v)
          (gets (λ s. s.own.session_guid))
          (λ s. Standing W (logged s) s)
          (Out W)
  unfolding gets
  taken v = record { at = λ s h. subst (λ a. Standing W (logged a) a s) (sym h.session_kept) h }

  login-Stands :
      (a : Text) → Triple (Standing W away []) (login W a) (λ s. Standing W (logged s) s) (Out W)
  unfolding login
  login-Stands a =
      traced_or_break-Stands W away [] (λ (ok, json). on ok (logged_by W json) (halted []))
        (Requests.login a) (λ _. refl) (λ _. inl refl)
      ⟫ λ json.
          let key = W.keys.session_id in
          let v = W.get_string (W.member json key) in
          Triple-if (not (W.has_member json key) || not (W.is_string (W.member json key)))
            (λ _. Triple-leave broke (somewhere W (logged_by W json) []))
            (λ e.
              Triple-pre (take_session json v refl (ground arith))
                (Triple-pure {Q = λ _. Standing W (logged v) []} tt))
          ⟫ λ _. lock-Stands W (logged v) [] ⟫ λ _.
              set_session-Stands W (logged v) [] v (inr refl) ⟫ λ _. taken v

  -- A request for the session, which leads to `q` or halts.
  session-Stands :
      (p q : Phase) (v : Text) (r : Request)
      → session_of q ≡ v
      → ((a : Bool × W.Json) → sequence_next W p r a.0 a.1 ≡ some (on a.0 q (halted v)))
      → Triple (Standing W p v) (traced_or_break W (traced_as r) r) (λ _. Standing W q v) (Out W)
  session-Stands p q v r e moves =
      traced_or_break-Stands W p v (λ (ok, _). on ok q (halted v)) r moves
        (λ (ok, _). Fits-on ok q (halted v) (inr e) (inr refl))

  change_status-Stands :
      (a v : Text)
      → Triple (Standing W (logged v) v) (change_status W a v) (λ _. Standing W (ready v) v) (Out W)
  unfolding change_status
  change_status-Stands a v =
      session-Stands (logged v) (ready v) v (Requests.change_status a v AgentStatus.available) refl
        (λ _. rw (text_eq_refl v))
      ⟫ λ _. Triple-pure tt

  check_vateams-Stands :
      (a v : Text) (teams : List Text)
      → Triple
          (Standing W (ready v) v)
          (check_vateams W a v teams)
          (λ _. Standing W (ready v) v)
          (Out W)
  unfolding check_vateams
  check_vateams-Stands a v [] = Triple-pure tt
  check_vateams-Stands a v (team ∷ teams) =
      session-Stands (ready v) (ready v) v (Requests.check_vateam a v team) refl
        (λ _. rw (text_eq_refl v))
      ⟫ λ _. check_vateams-Stands a v teams

  logout-Stands :
      (a v : Text)
      → Triple (Standing W (ready v) v) (logout W a v) (λ _. Standing W away []) (Out W)
  unfolding logout
  logout-Stands a v = lock-Stands W (ready v) v ⟫ λ _.
      set_session-Stands W (ready v) v [] (inl refl) ⟫ λ _.
      traced_or_break-Stands W (ready v) [] (λ (ok, _). on ok away (halted []))
        (Requests.logout a v) (λ _. rw (text_eq_refl v)) (λ _. inl refl)
      ⟫ λ _. Triple-pure tt

  -- A round of the loop leads back to where it began.
  pub body-Stands :
      (d : Desk) → Triple (Standing W away []) (body W d) (λ _. Standing W away []) (Out W)
  unfolding body
  body-Stands d = stop-Stands W away [] ⟫ λ _. pause-Stands W away [] ⟫ λ _.
      getvateams-Stands d.agent_guid d.agent_vacenters ⟫ λ _. pause-Stands W away [] ⟫ λ _.
      stop-Stands W away [] ⟫ λ _. login-Stands d.agent_guid ⟫ λ v.
      pause-Stands W (logged v) v ⟫ λ _. stop-Stands W (logged v) v ⟫ λ _.
      change_status-Stands d.agent_guid v ⟫ λ _. pause-Stands W (ready v) v ⟫ λ _.
      stop-Stands W (ready v) v ⟫ λ _. check_vateams-Stands d.agent_guid v d.agent_vateams ⟫ λ _.
      pause-Stands W (ready v) v ⟫ λ _.
      stop-Stands W (ready v) v ⟫ λ _. logout-Stands d.agent_guid v
