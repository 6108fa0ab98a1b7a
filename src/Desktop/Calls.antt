-- ===== src/Desktop/Calls.antt =====
-- The steps of an agent's desktop around a call, at a place in a protocol.
use delfos.Prelude.{
  ℕ, zero, suc, ◌+◌, ◌*◌, ◌≡◌, sym, ap, subst, ◌∙◌, Bool, false, not, some, Text, ltb, is_empty,
}
use delfos.Trace.{ns_per_ms}
use delfos.World.{World, Turn}
use delfos.World.Requests
use delfos.Monad.{broke, hung, M, pure}
use delfos.Monad.Triple.{
  Triple, Triple-pure, Triple-leave, Triple-if, Triple-elim, Triple-pre, Triple-fact, ◌⟫◌,
}
use delfos.Workflow.State.{System, sequence_thread}
use delfos.Workflow.Rules.{KeptBy}
use delfos.Cmn.Sequence.{polling_check_period, polling_check_max, workflow_lead_result}
use delfos.Cmn.Protocol.{on}
use delfos.Desktop.{poll, wait_bridged, open_session, capture_lead, set_result, logout}
use delfos.Desktop.Steps.{asked-Stands}
use delfos.Protocol.{Account, Place, At}
use delfos.Protocol.Rules.{
  Standing, somewhere, Out, ask-Stands, gets-Stands, word-Stands, fields-Stands, own-Stands,
  lock-Stands, sleep_for-Stands,
}

module _ {W : World} {X : Type 0} (a : Account W X) (Crash : Place a → Type 0)
    {turn : Turn W.Http → M (System W X) (Unit {0})}
    (quiet : (p : Place a) (v : a.Words) → KeptBy W turn (At a p v)) where
  poll-Stands :
      (call_bridged : X → Bool) (p : Place a) (v : a.Words) (init_time fuel : ℕ)
      → Triple
          (Standing a p v)
          (poll W turn call_bridged init_time fuel)
          (λ _. Standing a p v)
          (Out a Crash)
  unfolding poll
  poll-Stands call_bridged p v init_time zero = Triple-leave hung (somewhere a p v)
  poll-Stands call_bridged p v init_time (suc fuel) = lock-Stands a quiet p v ⟫ λ _.
      gets-Stands a p v (λ s. call_bridged s.own) ⟫ λ bridged.
      Triple-elim bridged (Triple-pure tt) (
        ask-Stands a p v W.now ⟫ λ now.
        Triple-elim (ltb (init_time + polling_check_max * ns_per_ms) now) (Triple-pure tt) (
          sleep_for-Stands a quiet p v polling_check_period ⟫ λ _.
          poll-Stands call_bridged p v init_time fuel))

  pub wait_bridged-Stands :
      (call_bridged : X → Bool) (clear_call : X → X) (p : Place a) (v : a.Words)
      → ((own : X) → a.words own ≡ v → a.words (clear_call own) ≡ v)
      → a.Fits p v
      → (fuel : ℕ)
      → Triple
          (Standing a p v)
          (wait_bridged W turn call_bridged clear_call fuel)
          (λ _. Standing a p v)
          (Out a Crash)
  unfolding wait_bridged
  wait_bridged-Stands call_bridged clear_call p v keeps f fuel =
      ask-Stands a p v W.now ⟫ λ init_time. poll-Stands call_bridged p v init_time fuel ⟫ λ _.
      gets-Stands a p v (λ s. call_bridged s.own) ⟫ λ bridged.
      Triple-if (not bridged) (λ _. Triple-leave broke (somewhere a p v)) (λ _. Triple-pure tt)
      ⟫ λ _. own-Stands a p v clear_call v keeps f

  pub open_session-Stands :
      (phone session : X → Text) (p : Place a) (v : a.Words) (S : Text) (q : W.Json → Place a)
      (fail : Place a)
      → ((own : X) → a.words own ≡ v → session own ≡ S)
      → ((phone agent : Text) (x : Bool × W.Json)
          → a.machine.next sequence_thread p (Requests.open_session phone agent S) x.0 x.1
            ≡ some (on x.0 (q x.1) fail))
      → ((json : W.Json) → a.Fits (q json) v)
      → a.Fits fail v
      → (agent : Text)
      → Triple
          (Standing a p v)
          (open_session W turn phone session agent)
          (λ json. Standing a (q json) v)
          (Out a Crash)
  unfolding open_session
  open_session-Stands phone session p v S q fail known moves f g agent =
      gets-Stands a p v (λ s. phone s.own) ⟫ λ number.
      word-Stands a p v session S known ⟫ λ session_guid. Triple-fact λ e.
        asked-Stands a Crash quiet p v q fail (Requests.open_session number agent session_guid)
          (λ x.
            subst
              (λ S.
                a.machine.next sequence_thread p (Requests.open_session number agent S) x.0 x.1
                ≡ some (on x.0 (q x.1) fail))
              (sym e) (moves number agent x))
          f g

  -- The guid that the answer held leads on, or there is none.
  pub capture_lead-Stands :
      (store : X → X) (lead : X → Text) (v v' : a.Words) (l : Text) (q fail : Place a)
      → ((own : X) → a.words own ≡ v → a.words (store own) ≡ v')
      → ((own : X) → a.words own ≡ v' → lead own ≡ l)
      → a.Fits (on (is_empty l) fail q) v'
      → Triple
          (Standing a (on (is_empty l) fail q) v)
          (capture_lead W turn store lead)
          (λ x s. Standing a q v' s × (x ≡ l))
          (Out a Crash)
  unfolding capture_lead pure
  capture_lead-Stands store lead v v' l q fail takes gives f = lock-Stands a quiet p v ⟫ λ _.
      own-Stands a p v store v' takes f ⟫ λ _. word-Stands a p v' lead l gives ⟫ λ x.
      Triple-fact λ e.
        Triple-if (is_empty x) (λ _. Triple-leave broke (somewhere a p v'))
          (λ h. Triple-pre (led x e h) (Triple-pure {Q = λ _. Standing a q v'} tt))
        ⟫ λ _. record { at = λ s h. (h, e) }
    where
      p : Place a
      p = on (is_empty l) fail q

      led :
          (x : Text)
          → x ≡ l
          → is_empty x ≡ false
          → (s : System W X) → Standing a (on (is_empty l) fail q) v' s
          → Standing a q v' s
      led x e h s st = subst (λ b. Standing a (on b fail q) v' s) (sym (ap is_empty e) ∙ h) st

  pub set_result-Stands :
      (clear : X → X) (v v' : a.Words) (lead : Text) (p q fail : Place a)
      → ((own : X) → a.words own ≡ v → a.words (clear own) ≡ v')
      → ((x : Bool × W.Json)
          → a.machine.next sequence_thread p (Requests.set_result lead workflow_lead_result) x.0 x.1
            ≡ some (on x.0 q fail))
      → a.Fits p v'
      → a.Fits q v'
      → a.Fits fail v'
      → Triple (Standing a p v) (set_result W turn clear lead) (λ _. Standing a q v') (Out a Crash)
  unfolding set_result
  set_result-Stands clear v v' lead p q fail drops moves before f g = lock-Stands a quiet p v ⟫ λ _.
      own-Stands a p v clear v' drops before ⟫ λ _. fields-Stands a p v' _ ⟫ λ _.
      asked-Stands a Crash quiet p v' (λ _. q) fail (Requests.set_result lead workflow_lead_result)
        moves (λ _. f) g
      ⟫ λ _. Triple-pure tt

  pub logout-Stands :
      (clear : X → X) (v v' : a.Words) (agent session : Text) (p q fail : Place a)
      → ((own : X) → a.words own ≡ v → a.words (clear own) ≡ v')
      → ((x : Bool × W.Json)
          → a.machine.next sequence_thread p (Requests.logout agent session) x.0 x.1
            ≡ some (on x.0 q fail))
      → a.Fits p v'
      → a.Fits q v'
      → a.Fits fail v'
      → Triple
          (Standing a p v)
          (logout W turn clear agent session)
          (λ _. Standing a q v')
          (Out a Crash)
  unfolding logout
  logout-Stands clear v v' agent session p q fail drops moves before f g =
      lock-Stands a quiet p v ⟫ λ _. own-Stands a p v clear v' drops before ⟫ λ _.
      asked-Stands a Crash quiet p v' (λ _. q) fail (Requests.logout agent session) moves (λ _. f) g
      ⟫ λ _. Triple-pure tt
