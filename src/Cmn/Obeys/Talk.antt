-- ===== src/Cmn/Obeys/Talk.antt =====
-- The second half of the loop of `CMNWorkflow` against the protocol, from the request of a lead to
-- the logout.
use delfos.Prelude.{
  ℕ, zero, suc, ◌+◌, ◌*◌, ◌≡◌, refl, false, not, [], ◌∷◌, Text, text_eq_refl, is_empty, ltb,
}
use delfos.Trace.{ns_per_ms}
use delfos.World.{World}
use delfos.World.Requests
use delfos.World.Requests.{LeadAction}
use delfos.Monad.{broke, hung}
use delfos.Monad.Triple.{
  Triple, Triple-pure, Triple-leave, Triple-if, Triple-elim, Triple-read, Triple-pre, ◌⟫◌,
}
use delfos.Workflow.Calls.{workflow_chatfile_pod, generate_random_phone}
use delfos.Workflow.Rules.{Triple-sleep_for}
use delfos.Workflow.Run.{gari_update_room}
use delfos.Cmn.State.{CmnSystem}
use delfos.Cmn.Alive.{turn}
use delfos.Cmn.Sequence.{Agent, polling_check_period, polling_check_max, workflow_lead_result}
use delfos.Cmn.Call.{
  lead_in, capture_lead, request_lead, poll, wait_bridged, open_session, set_result, logout, talk,
  body,
}
use delfos.Cmn.Protocol.{
  Phase, seeded, closed, offered, leading, talking, updated, resulted, halted, on, led_by,
}
use delfos.Cmn.Obeys.{Fits, turn-KeptBy}
use delfos.Cmn.Obeys.Desktop.{desktop-Stands}
use delfos.Cmn.Obeys.Rules.{
  Fits-nothing, Fits-session, Fits-lead, Fits-on, Standing, Out, somewhere, lock-Stands,
  sleep_delta-Stands, tracking-Stands, ask-Stands, gets-Stands, fields-Stands, set_session-Stands,
  set_lead-Stands, traced-Stands, break_if_stopped-Stands, traced_or_break-Stands,
}

module _ (W : World) where
  Fits-led : (v l : Text) → Fits (led_by W v l) v l
  Fits-led v [] = Fits-session (halted v []) v refl
  Fits-led v (x ∷ l) = Fits-lead (leading v (x ∷ l)) v (x ∷ l) refl refl

  Fits-before_led : (v l : Text) → Fits (led_by W v l) v []
  Fits-before_led v l =
      Fits-on (is_empty l) (halted v []) (leading v l) (Fits-session (halted v []) v refl)
        (Fits-session (leading v l) v refl)

  kept_lead :
      (v l : Text)
      → is_empty l ≡ false
      → (s : CmnSystem W) → Standing W (led_by W v l) v l s
      → Standing W (leading v l) v l s
  kept_lead v [] e s h = cc
  kept_lead v (x ∷ l) e s h = h

  phone-Stands :
      (p : Phase) (S L : Text)
      → Triple (Standing W p S L) (generate_random_phone W) (λ _. Standing W p S L) (Out W)
  unfolding generate_random_phone
  phone-Stands p S L = ask-Stands W p S L W.draw_phone ⟫ λ _. Triple-pure _

  capture_lead-Stands :
      (v l : Text)
      → Triple
          (Standing W (led_by W v l) v [])
          (capture_lead W l)
          (λ l. Standing W (leading v l) v l)
          (Out W)
  unfolding capture_lead
  capture_lead-Stands v l = lock-Stands W (led_by W v l) v [] ⟫ λ _.
      set_lead-Stands W (led_by W v l) v [] l (Fits-led v l) ⟫ λ _.
      Triple-read _ (λ s. s.own.lead_guid) l (λ s h. h.lead_kept)
        (Triple-if (is_empty l) (λ _. Triple-leave broke (somewhere W (led_by W v l) v l))
            (λ e.
              Triple-pre (kept_lead v l e) (Triple-pure {Q = λ _. Standing W (leading v l) v l} tt))
          ⟫ λ _. Triple-pure l)

  request_lead-Stands :
      (v b : Text)
      → Triple
          (Standing W (offered v) v [])
          (request_lead W b)
          (λ l. Standing W (leading v l) v l)
          (Out W)
  unfolding request_lead
  request_lead-Stands v b = tracking-Stands W (offered v) v [] _ ⟫ λ _.
      ask-Stands W (offered v) v [] W.new_guid ⟫ λ m. phone-Stands (offered v) v [] ⟫ λ phone.
      tracking-Stands W (offered v) v [] _ ⟫ λ _.
      gets-Stands W (offered v) v [] (λ s. s.seed_guid) ⟫ λ seed.
      traced_or_break-Stands W (offered v) v []
        (λ (ok, json). on ok (led_by W v (lead_in W json)) (halted v [])) (Requests.request_lead _)
        (λ _. refl)
        (λ (ok, json).
          Fits-on ok (led_by W v (lead_in W json)) (halted v [])
            (Fits-before_led v (lead_in W json)) (Fits-session (halted v []) v refl))
      ⟫ λ json. capture_lead-Stands v (lead_in W json)

  poll-Stands :
      (p : Phase) (S L : Text) (init_time fuel : ℕ)
      → Triple (Standing W p S L) (poll W init_time fuel) (λ _. Standing W p S L) (Out W)
  unfolding poll
  poll-Stands p S L init_time zero = Triple-leave hung (somewhere W p S L)
  poll-Stands p S L init_time (suc fuel) = lock-Stands W p S L ⟫ λ _.
      gets-Stands W p S L (λ s. s.own.call_bridged) ⟫ λ bridged.
      Triple-elim bridged (Triple-pure tt) (
        ask-Stands W p S L W.now ⟫ λ now.
        Triple-elim (ltb (init_time + polling_check_max * ns_per_ms) now) (Triple-pure tt) (
          Triple-sleep_for W (turn-KeptBy W p S L) polling_check_period ⟫ λ _.
          poll-Stands p S L init_time fuel))

  wait_bridged-Stands :
      (p : Phase) (S L : Text) (fuel : ℕ)
      → Triple (Standing W p S L) (wait_bridged W fuel) (λ _. Standing W p S L) (Out W)
  unfolding wait_bridged
  wait_bridged-Stands p S L fuel = ask-Stands W p S L W.now ⟫ λ init_time.
      poll-Stands p S L init_time fuel ⟫ λ _.
      gets-Stands W p S L (λ s. s.own.call_bridged) ⟫ λ bridged.
      Triple-if (not bridged) (λ _. Triple-leave broke (somewhere W p S L)) (λ _. Triple-pure tt)
      ⟫ λ _. tracking-Stands W p S L _

  open_session-Stands :
      (a v l : Text)
      → Triple
          (Standing W (leading v l) v l)
          (open_session W a)
          (λ _. Standing W (talking v l) v l)
          (Out W)
  unfolding open_session
  open_session-Stands a v l =
      gets-Stands W (leading v l) v l (λ s. s.own.lead_customer_phone) ⟫ λ phone.
      Triple-read _ (λ s. s.own.session_guid) v (λ s h. h.session_kept)
        (traced_or_break-Stands W (leading v l) v l (λ (ok, _). on ok (talking v l) (halted v l))
            (Requests.open_session phone a v) (λ _. rw (text_eq_refl v))
            (λ (ok, _).
              Fits-on ok (talking v l) (halted v l) (Fits-lead (talking v l) v l refl refl)
                (Fits-lead (halted v l) v l refl refl))
          ⟫ λ _. Triple-pure tt)

  update-Stands :
      (v l : Text)
      → Triple
          (Standing W (talking v l) v l)
          (gari_update_room W (turn W) l)
          (λ _. Standing W (updated v l) v l)
          (Out W)
  unfolding gari_update_room
  update-Stands v l = gets-Stands W (talking v l) v l (λ s. s.gari_user_guid) ⟫ λ u.
      traced-Stands W (talking v l) v l (λ _. updated v l)
        (Requests.update l u workflow_chatfile_pod) (λ _. rw (text_eq_refl l))
        (λ _. Fits-lead (updated v l) v l refl refl)
      ⟫ λ answer. Triple-pure answer.0

  set_result-Stands :
      (v l : Text)
      → Triple
          (Standing W (updated v l) v l)
          (set_result W l)
          (λ _. Standing W (resulted v) v [])
          (Out W)
  unfolding set_result
  set_result-Stands v l = lock-Stands W (updated v l) v l ⟫ λ _.
      set_lead-Stands W (updated v l) v l [] (Fits-session (updated v l) v refl) ⟫ λ _.
      fields-Stands W (updated v l) v [] _ ⟫ λ _.
      traced_or_break-Stands W (updated v l) v [] (λ (ok, _). on ok (resulted v) (halted v []))
        (Requests.set_result l workflow_lead_result) (λ _. rw (text_eq_refl l))
        (λ (ok, _).
          Fits-on ok (resulted v) (halted v []) (Fits-session (resulted v) v refl)
            (Fits-session (halted v []) v refl))
      ⟫ λ _. Triple-pure tt

  logout-Stands :
      (a v : Text)
      → Triple (Standing W (resulted v) v []) (logout W a v) (λ _. Standing W closed [] []) (Out W)
  unfolding logout
  logout-Stands a v = lock-Stands W (resulted v) v [] ⟫ λ _.
      set_session-Stands W (resulted v) v [] [] (Fits-nothing (resulted v)) ⟫ λ _.
      traced_or_break-Stands W (resulted v) [] [] (λ _. closed) (Requests.logout a v)
        (λ _. rw (text_eq_refl v)) (λ _. Fits-nothing closed)
      ⟫ λ _. Triple-pure tt

  talk-Stands :
      (fuel : ℕ) (a : Agent) (v b : Text)
      → Triple (Standing W (offered v) v []) (talk W fuel a (v, b)) (λ _ _. ⊥) (Out W)
  unfolding talk
  talk-Stands fuel a v b = request_lead-Stands v b ⟫ λ l.
      sleep_delta-Stands W (leading v l) v l ⟫ λ _.
      break_if_stopped-Stands W (leading v l) v l ⟫ λ _.
      wait_bridged-Stands (leading v l) v l fuel ⟫ λ _. open_session-Stands a.agent_guid v l ⟫ λ _.
      sleep_delta-Stands W (talking v l) v l ⟫ λ _.
      break_if_stopped-Stands W (talking v l) v l ⟫ λ _. update-Stands v l ⟫ λ _.
      sleep_delta-Stands W (updated v l) v l ⟫ λ _.
      break_if_stopped-Stands W (updated v l) v l ⟫ λ _. set_result-Stands v l ⟫ λ _.
      sleep_delta-Stands W (resulted v) v [] ⟫ λ _.
      break_if_stopped-Stands W (resulted v) v [] ⟫ λ _.
      logout-Stands a.agent_guid v ⟫ λ _. Triple-leave broke (somewhere W closed [] [])

  -- A round of the loop keeps the protocol, and is always left by `break`: there is no second one.
  pub body-Stands :
      (fuel : ℕ) (a : Agent) → Triple (Standing W seeded [] []) (body W fuel a) (λ _ _. ⊥) (Out W)
  unfolding body
  body-Stands fuel a = desktop-Stands W a ⟫ λ (v, b). talk-Stands fuel a v b
