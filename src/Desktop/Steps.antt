-- ===== src/Desktop/Steps.antt =====
-- The steps of an agent's desktop at a place in a protocol.
use delfos.Prelude.{
  ◌≡◌, refl, sym, ap, subst, Bool, true, false, not, ◌&&◌, ◌||◌, List, [], ◌∷◌, some, Text, arith,
}
use delfos.World.{World, Turn}
use delfos.World.Requests
use delfos.World.Requests.{Request, AgentStatus}
use delfos.Monad.{broke, threw, M, gets}
use delfos.Monad.Triple.{
  Triple, Triple-pure, Triple-leave, Triple-leave_unless, Triple-if, Triple-elim, Triple-pre, ◌⟫◌,
}
use delfos.Workflow.State.{System, sequence_thread}
use delfos.Workflow.Schedule
use delfos.Workflow.Rules.{KeptBy}
use delfos.Workflow.Buckets.{get_agent_guid, get_vacenter_guids}
use delfos.Workflow.Run.{increment_barrier, spawn_alive, gari_create_seed}
use delfos.Cmn.Protocol.{on}
use delfos.Desktop.{
  staff, getvateams, login, change_status, check_vateams, get_availability, logged_by,
}
use delfos.Protocol.{Account, Place, At}
use delfos.Protocol.Rules.{
  Standing, somewhere, Thrown, Out, ask-Stands, gets-Stands, still-Stands, fields-Stands,
  own-Stands, lock-Stands, traced-Stands, traced_or_break-Stands, position-Stands, vateams-Stands,
}

pub on-ap {ℓ} : {A : Type ℓ} (b : Bool) (P : A → Type 0) {x y : A} → P x → P y → P (on b x y)
on-ap true P f g = f
on-ap false P f g = g

module _ {W : World} {X : Type 0} (a : Account W X) (Crash : Place a → Type 0)
    {turn : Turn W.Http → M (System W X) (Unit {0})}
    (quiet : (p : Place a) (v : a.Words) → KeptBy W turn (At a p v)) where
  pub staff-Stands :
      (p : Place a) (v : a.Words)
      → Triple (Standing a p v) (staff W turn) (λ _. Standing a p v) (Thrown a)
  unfolding staff increment_barrier get_agent_guid get_vacenter_guids
  staff-Stands p v = still-Stands a p v _ (λ s h. h) ⟫ λ _. gets-Stands a p v _ ⟫ λ i.
      position-Stands a p v W.bucket.agents i ⟫ λ guid.
      vateams-Stands a p v ⟫ λ teams. Triple-pure _ ⟫ λ centers. Triple-pure _

  pub create_seed-Stands :
      (p : Place a) (v : a.Words) (q fail : Place a)
      → ((g : Text) (x : Bool × W.Json)
          → a.machine.next sequence_thread p (Requests.create_seed g) x.0 x.1
            ≡ some (on x.0 q fail))
      → a.Fits q v
      → a.Fits fail v
      → Triple (Standing a p v) (gari_create_seed W turn) (λ _. Standing a q v) (Thrown a)
  unfolding gari_create_seed
  create_seed-Stands p v q fail moves f g = ask-Stands a p v W.new_guid ⟫ λ guid.
      fields-Stands a p v _ ⟫ λ _.
      traced-Stands a quiet p v (λ (ok, _). on ok q fail) (Requests.create_seed guid) (moves guid)
        (λ (ok, _). on-ap ok (λ p. a.Fits p v) f g)
      ⟫ λ answer.
          Triple-leave_unless (λ ok. Standing a (on ok q fail) v) answer.0 threw
            (somewhere a fail v)

  pub spawn_alive-Stands :
      (p : Place a) (v : a.Words)
      → Triple (Standing a p v) (spawn_alive W turn) (λ _. Standing a p v) (Thrown a)
  unfolding spawn_alive
  spawn_alive-Stands p v = still-Stands a p v _ (λ s h. h)

  pub getvateams-Stands :
      (p : Place a) (v : a.Words)
      → ((g c : Text) (x : Bool × W.Json)
          → a.machine.next sequence_thread p (Requests.getvateams g c) x.0 x.1 ≡ some p)
      → a.Fits p v
      → (g : Text) (cs : List Text)
      → Triple (Standing a p v) (getvateams W turn g cs) (λ _. Standing a p v) (Out a Crash)
  unfolding getvateams
  getvateams-Stands p v moves f g [] = Triple-pure tt
  getvateams-Stands p v moves f g (c ∷ cs) =
      traced-Stands a quiet p v (λ _. p) (Requests.getvateams g c) (moves g c) (λ _. f) ⟫ λ answer.
      Triple-elim answer.0 (getvateams-Stands p v moves f g cs) (Triple-pure tt)

  -- A request that leads to `q`, or to `fail` and out of the loop.
  pub asked-Stands :
      (p : Place a) (v : a.Words) (q : W.Json → Place a) (fail : Place a) (r : Request)
      → ((x : Bool × W.Json)
          → a.machine.next sequence_thread p r x.0 x.1 ≡ some (on x.0 (q x.1) fail))
      → ((json : W.Json) → a.Fits (q json) v)
      → a.Fits fail v
      → Triple
          (Standing a p v)
          (Schedule.traced_or_break W turn (Requests.event_of r) r)
          (λ json. Standing a (q json) v)
          (Out a Crash)
  asked-Stands p v q fail r moves f g =
      traced_or_break-Stands a quiet p v Crash (λ (ok, json). on ok (q json) fail) r moves
        (λ (ok, json). on-ap ok (λ p. a.Fits p v) (f json) g)

  holds_session : W.Json → Bool
  holds_session json =
      W.has_member json W.keys.session_id && W.is_string (W.member json W.keys.session_id)

  module _ (set_session : Text → X → X) (session : X → Text) (v : a.Words) (v' : Text → a.Words)
      (takes : (g : Text) (own : X) → a.words own ≡ v → a.words (set_session g own) ≡ v' g)
      (gives : (g : Text) (own : X) → a.words own ≡ v' g → session own ≡ g) where
    take_session :
        (q : Text → Place a) (fail : Place a) (json : W.Json) (g : Text)
        → W.get_string (W.member json W.keys.session_id) ≡ g
        → holds_session json ≡ true
        → (s : System W X) → Standing a (logged_by W q fail json) v s
        → Standing a (q g) v s
    unfolding holds_session
    take_session q fail json g e h s st = subst (λ p. Standing a p v s) (rw h (ap q e)) st

    pub login-Stands :
        (p : Place a) (q : Text → Place a) (fail : Place a)
        → ((g : Text) (x : Bool × W.Json)
            → a.machine.next sequence_thread p (Requests.login g) x.0 x.1
              ≡ some (on x.0 (logged_by W q fail x.1) fail))
        → ((g : Text) → a.Fits (q g) v)
        → a.Fits fail v
        → ((g : Text) → a.Fits (q g) (v' g))
        → (agent : Text)
        → Triple
            (Standing a p v)
            (login W turn set_session session agent)
            (λ g. Standing a (q g) (v' g))
            (Out a Crash)
    unfolding login holds_session gets
    login-Stands p q fail moves before failed after agent =
        asked-Stands p v (logged_by W q fail) fail (Requests.login agent) (moves agent)
          (λ json. on-ap _ (λ p. a.Fits p v) (before _) failed) failed
        ⟫ λ json.
            let key = W.keys.session_id in
            let g = W.get_string (W.member json key) in
            Triple-if (not (W.has_member json key) || not (W.is_string (W.member json key)))
              (λ _. Triple-leave broke (somewhere a (logged_by W q fail json) v))
              (λ e.
                Triple-pre (take_session q fail json g refl (ground arith))
                  (Triple-pure {Q = λ _. Standing a (q g) v} tt))
            ⟫ λ _. lock-Stands a quiet (q g) v ⟫ λ _.
                own-Stands a (q g) v (set_session g) (v' g) (takes g) (after g) ⟫ λ _. taken q g
      where
        taken :
            (q : Text → Place a) (g : Text)
            → Triple
                (Standing a (q g) (v' g))
                (gets (λ s. session s.own))
                (λ x. Standing a (q x) (v' x))
                (Out a Crash)
        taken q g = record {
          at = λ s h. subst (λ x. Standing a (q x) (v' x) s) (sym (gives g s.own h.kept)) h;
        }

  pub change_status-Stands :
      (p : Place a) (v : a.Words) (q fail : Place a) (status : AgentStatus) (agent session : Text)
      → ((x : Bool × W.Json)
          → a.machine.next sequence_thread p (Requests.change_status agent session status) x.0 x.1
            ≡ some (on x.0 q fail))
      → a.Fits q v
      → a.Fits fail v
      → Triple
          (Standing a p v)
          (change_status W turn status agent session)
          (λ _. Standing a q v)
          (Out a Crash)
  unfolding change_status
  change_status-Stands p v q fail status agent session moves f g =
      asked-Stands p v (λ _. q) fail (Requests.change_status agent session status) moves (λ _. f) g
      ⟫ λ _. Triple-pure tt

  pub check_vateams-Stands :
      (p : Place a) (v : a.Words) (fail : Place a) (agent session : Text)
      → ((team : Text) (x : Bool × W.Json)
          → a.machine.next sequence_thread p (Requests.check_vateam agent session team) x.0 x.1
            ≡ some (on x.0 p fail))
      → a.Fits p v
      → a.Fits fail v
      → (teams : List Text)
      → Triple
          (Standing a p v)
          (check_vateams W turn agent session teams)
          (λ _. Standing a p v)
          (Out a Crash)
  unfolding check_vateams
  check_vateams-Stands p v fail agent session moves f g [] = Triple-pure tt
  check_vateams-Stands p v fail agent session moves f g (team ∷ teams) =
      asked-Stands p v (λ _. p) fail (Requests.check_vateam agent session team) (moves team)
        (λ _. f) g
      ⟫ λ _. check_vateams-Stands p v fail agent session moves f g teams

  pub get_availability-Stands :
      (p : Place a) (v : a.Words) (q fail : Place a) (branch : Text)
      → ((x : Bool × W.Json)
          → a.machine.next sequence_thread p (Requests.get_availability branch) x.0 x.1
            ≡ some (on x.0 q fail))
      → a.Fits q v
      → a.Fits fail v
      → Triple (Standing a p v) (get_availability W turn branch) (λ _. Standing a q v) (Out a Crash)
  unfolding get_availability
  get_availability-Stands p v q fail branch moves f g =
      asked-Stands p v (λ _. q) fail (Requests.get_availability branch) moves (λ _. f) g ⟫ λ _.
      Triple-pure tt
