-- ===== src/Agent/Rounds.antt =====
-- Whole runs of `AgentWorkflow::sequence` against the protocol.
use delfos.Prelude.{
  false, ℕ, zero, suc, ◌≡◌, refl, sym, subst, ◌≢◌, inl, not, ◌&&◌, [], some, Text, is_empty, ltb,
  length,
}
use delfos.World.{World}
use delfos.Monad.{Exit, broke, threw, hung, Res, val, exit, gets, modify}
use delfos.Monad.Triple.{Triple, Post, Post-collapse, Triple-pure, Triple-leave, Triple-if, ◌⟫◌}
use delfos.Workflow.State.{set_fields}
use delfos.Workflow.Buckets.{get_agent_guid, get_vateam_guids, get_vacenter_guids}
use delfos.Workflow.Run.{
  Outcome, terminated, stopped, destroy_alive-joined, joinable, joinable-join, increment_barrier,
  spawn_alive, stop_alive, begin, forever, wind_up, looped, run,
}
use delfos.Workflow.Traced.{IsNamed, IsNamed-nil}
use delfos.Barrier.{Barrier}
use delfos.Agent.{new_workflow, AgentSystem, Desk, turn, prepare, body, sequence}
use delfos.Agent.Protocol.{Phase, away, traced_as, phase}
use delfos.Agent.Obeys.{Standing, Somewhere, somewhere, Out, lock-Stands}
use delfos.Agent.Steps.{body-Stands}

module _ (W : World) where
  -- Out of the code before the loop: by an exception.
  abbrev Thrown : Exit → AgentSystem W → Type 0
  Thrown broke s = ⊥
  Thrown hung s = ⊥
  Thrown threw s = Somewhere W s

  prepare-Stands : Triple (Standing W away []) (prepare W) (λ _. Standing W away []) Thrown
  unfolding prepare increment_barrier spawn_alive get_agent_guid get_vateam_guids get_vacenter_guids
      modify gets
  prepare-Stands = bare _ (λ s h. h) ⟫ λ _. position ⟫ λ i.
      Triple-if (not (is_empty W.bucket.agents) && ltb i (length W.bucket.agents))
        (λ _. Triple-pure _) (λ _. Triple-leave threw (somewhere W away []))
      ⟫ λ a.
          Triple-if (is_empty W.bucket.relations) (λ _. Triple-leave threw (somewhere W away []))
            (λ _. Triple-pure _)
          ⟫ λ teams. Triple-pure _ ⟫ λ centers. bare _ (λ s h. h) ⟫ λ _. Triple-pure _
    where
      bare :
          (f : AgentSystem W → AgentSystem W)
          → ((s : AgentSystem W) → Standing W away [] s → Standing W away [] (f s))
          → Triple (Standing W away []) (modify f) (λ _. Standing W away []) Thrown
      bare f k = record { at = k }

      position :
          Triple
            (Standing W away [])
            (gets (λ s. s.agent_position))
            (λ _. Standing W away [])
            Thrown
      position = record { at = λ s h. h }

  -- What is said of the end of a run.
  record Kept (o : Outcome) (s : AgentSystem W) : Type 0 where
    place : Somewhere W s
    alive_joined : o ≢ terminated

  Joined : Phase → Text → AgentSystem W → Type 0
  Joined p S s = Standing W p S s × (joinable s.alive ≡ false)

  stop_alive-Stands :
      (p : Phase) (S : Text)
      → Triple (Standing W p S) (stop_alive W (turn W)) (λ _. Joined p S) (λ _. Joined p S)
  unfolding stop_alive modify Joined
  stop_alive-Stands p S = lock-Stands W p S ⟫ λ _. record { at = λ s h. (h, joinable-join s.alive) }

  wind_up-Kept :
      (r : Res (Unit {0})) (s : AgentSystem W)
      → Post (λ _ _. ⊥) (Out W) r s
      → Kept (wind_up W (turn W) r s).0 (wind_up W (turn W) r s).1
  unfolding wind_up stopped set_fields Joined
  wind_up-Kept (val a) s h = absurd h
  wind_up-Kept (exit threw) s h = absurd h
  wind_up-Kept (exit hung) s h = record { place = h; alive_joined = λ e. cc }
  wind_up-Kept (exit broke) s h =
      let stands =
        Post-collapse (Joined h.place h.session) _ _
          ((stop_alive-Stands h.place h.session).at s h.stands) in
      subst (λ x. Kept x.0 x.1) (sym (destroy_alive-joined W (turn W) _ _ _ stands.1))
        (record { place = somewhere W h.place h.session _ stands.0; alive_joined = λ e. cc })

  loop-Kept :
      (fuel : ℕ) (d : Desk)
      → Triple (Standing W away []) (forever W (turn W) fuel (body W d)) (λ _ _. ⊥) (Out W)
  unfolding forever
  loop-Kept zero d = Triple-leave hung (somewhere W away [])
  loop-Kept (suc fuel) d = body-Stands W d ⟫ λ _. loop-Kept fuel d

  looped-Kept :
      (fuel : ℕ) (r : Res Desk) (s : AgentSystem W)
      → Post (λ _. Standing W away []) Thrown r s
      → Kept (looped W (turn W) fuel (body W) r s).0 (looped W (turn W) fuel (body W) r s).1
  unfolding looped
  looped-Kept fuel (val a) s h = wind_up-Kept _ _ ((loop-Kept fuel a).at s h)
  looped-Kept fuel (exit threw) s h = record { place = h; alive_joined = λ e. cc }
  looped-Kept fuel (exit broke) s h = absurd h
  looped-Kept fuel (exit hung) s h = absurd h

  -- A workflow that has been constructed and not yet run.
  pub record IsFresh (s : AgentSystem W) : Type 0 where
    pub no_requests : s.log ≡ []
    pub no_traces : s.inserted ≡ []
    pub no_session : s.own.session_guid ≡ []

  -- What the constructor makes is fresh.
  pub new_workflow-IsFresh :
      (position : ℕ) (b : Barrier) (e : W.State) → IsFresh (new_workflow W position b e)
  unfolding new_workflow
  new_workflow-IsFresh position b e = record {
    no_requests = refl;
    no_traces = refl;
    no_session = refl;
  }

  begin-Standing : (s : AgentSystem W) → IsFresh s → Standing W away [] (begin W (turn W) s)
  unfolding begin set_fields phase
  begin-Standing s f = record {
    accepted = rw f.no_requests;
    session_kept = f.no_session;
    fits = inl refl;
    traced = rw (f.no_requests, f.no_traces) (IsNamed-nil W traced_as);
  }

  sequence-Kept :
      (fuel : ℕ) (s : AgentSystem W) → IsFresh s → Kept (sequence W fuel s).0 (sequence W fuel s).1
  unfolding sequence run
  sequence-Kept fuel s f = looped-Kept fuel _ _ (prepare-Stands.at _ (begin-Standing s f))

  -- However many rounds a new AgentWorkflow makes, whatever the servers answer and however the
  -- threads interleave, its requests are in the order of the protocol, each for the session that
  -- the last login gave; the alive thread speaks for that session only, and not before a login.
  pub sequence_rounds-phase :
      (fuel : ℕ) (s : AgentSystem W)
      → IsFresh s
      → (p : Phase) × (phase W (sequence W fuel s).1.log ≡ some p)
  sequence_rounds-phase fuel s f =
      let place = (sequence-Kept fuel s f).place in (place.place, place.stands.accepted)

  -- If traces are enabled, each of the two threads of a new AgentWorkflow has handed over one trace
  -- for each of its own requests, in the order of these, with the request's success and its own
  -- command, but for the check of a team, which is traced under the command of a change of status; if
  -- they are not, none.
  pub sequence-IsNamed :
      (fuel : ℕ) (s : AgentSystem W)
      → IsFresh s
      → IsNamed W traced_as (sequence W fuel s).1.log (sequence W fuel s).1.inserted
  sequence-IsNamed fuel s f = (sequence-Kept fuel s f).place.stands.traced

  -- If the core library's calls in its loop throw nothing, the alive thread of a new AgentWorkflow
  -- is never destroyed while it is joinable.
  pub sequence_rounds_join :
      (fuel : ℕ) (s : AgentSystem W) → IsFresh s → (sequence W fuel s).0 ≢ terminated
  sequence_rounds_join fuel s f = (sequence-Kept fuel s f).alive_joined
