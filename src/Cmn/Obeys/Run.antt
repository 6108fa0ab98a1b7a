-- ===== src/Cmn/Obeys/Run.antt =====
-- Whole runs of `CMNWorkflow::sequence` against the protocol.
use delfos.Prelude.{
  false, ℕ, ◌≡◌, refl, sym, subst, ◌≢◌, not, ◌&&◌, [], some, Text, is_empty, ltb, length,
}
use delfos.World.{World}
use delfos.World.Requests
use delfos.World.Requests.{event_of}
use delfos.Monad.{broke, threw, hung, Res, val, exit, modify}
use delfos.Monad.Triple.{
  Triple, Post, Post-collapse, Triple-pure, Triple-leave, Triple-leave_unless, Triple-if, ◌⟫◌,
}
use delfos.Workflow.State.{set_fields}
use delfos.Workflow.Buckets.{get_agent_guid, get_vateam_guids, get_vacenter_guids}
use delfos.Workflow.Run.{
  Outcome, terminated, stopped, destroy_alive-joined, joinable, joinable-join, gari_create_seed,
  increment_barrier, spawn_alive, stop_alive, begin, forever, wind_up, looped, run,
}
use delfos.Workflow.Traced.{IsTraced, IsNamed-nil}
use delfos.Barrier.{Barrier}
use delfos.Cmn.State.{CmnSystem, new_workflow}
use delfos.Cmn.Alive.{turn}
use delfos.Cmn.Sequence.{Agent, prepare}
use delfos.Cmn.Call.{body, sequence}
use delfos.Cmn.Protocol.{Phase, created, seeded, closed, on, phase}
use delfos.Cmn.Obeys.Talk.{body-Stands}
use delfos.Cmn.Obeys.Rules.{
  Fits-nothing, Standing, Out, Thrown, Somewhere, somewhere, lock-Stands, ask-Stands, gets-Stands,
  fields-Stands, traced-Stands,
}

module _ (W : World) where
  Triple-bare :
      (p : Phase) (f : CmnSystem W → CmnSystem W)
      → ((s : CmnSystem W) → Standing W p [] [] s → Standing W p [] [] (f s))
      → Triple (Standing W p [] []) (modify f) (λ _. Standing W p [] []) (Thrown W)
  unfolding modify
  Triple-bare p f k = record { at = k }

  agent_guid-Stands :
      (i : ℕ)
      → Triple
          (Standing W created [] [])
          (get_agent_guid W i)
          (λ _. Standing W created [] [])
          (Thrown W)
  unfolding get_agent_guid
  agent_guid-Stands i =
      Triple-if (not (is_empty W.bucket.agents) && ltb i (length W.bucket.agents))
        (λ _. Triple-pure _) (λ _. Triple-leave threw (somewhere W created [] []))

  vateam_guids-Stands :
      Triple
        (Standing W created [] [])
        (get_vateam_guids W)
        (λ _. Standing W created [] [])
        (Thrown W)
  unfolding get_vateam_guids
  vateam_guids-Stands =
      Triple-if (is_empty W.bucket.relations) (λ _. Triple-leave threw (somewhere W created [] []))
        (λ _. Triple-pure _)

  create_seed-Stands :
      Triple
        (Standing W created [] [])
        (gari_create_seed W (turn W))
        (λ _. Standing W seeded [] [])
        (Thrown W)
  unfolding gari_create_seed
  create_seed-Stands = ask-Stands W created [] [] W.new_guid ⟫ λ guid.
      fields-Stands W created [] [] _ ⟫ λ _.
      traced-Stands W created [] [] (λ (ok, _). on ok seeded closed) (Requests.create_seed guid)
        (λ _. refl) (λ _. Fits-nothing _)
      ⟫ λ answer.
          Triple-leave_unless (λ ok. Standing W (on ok seeded closed) [] []) answer.0 threw
            (somewhere W closed [] [])

  prepare-Stands :
      Triple (Standing W created [] []) (prepare W) (λ _. Standing W seeded [] []) (Thrown W)
  unfolding prepare increment_barrier spawn_alive get_vacenter_guids
  prepare-Stands = Triple-bare created _ (λ s h. h) ⟫ λ _.
      gets-Stands W created [] [] (λ s. s.agent_position) ⟫ λ i. agent_guid-Stands i ⟫ λ a.
      vateam_guids-Stands ⟫ λ teams. Triple-pure _ ⟫ λ centers.
      create_seed-Stands ⟫ λ _. Triple-bare seeded _ (λ s h. h) ⟫ λ _. Triple-pure _

  -- What is said of the end of a run.
  pub record Kept (o : Outcome) (s : CmnSystem W) : Type 0 where
    place : Somewhere W s
    alive_joined : o ≢ terminated

  Joined : Phase → Text → Text → CmnSystem W → Type 0
  Joined p S L s = Standing W p S L s × (joinable s.alive ≡ false)

  stop_alive-Stands :
      (p : Phase) (S L : Text)
      → Triple (Standing W p S L) (stop_alive W (turn W)) (λ _. Joined p S L) (λ _. Joined p S L)
  unfolding stop_alive modify Joined
  stop_alive-Stands p S L =
      lock-Stands W p S L ⟫ λ _. record { at = λ s h. (h, joinable-join s.alive) }

  wind_up-Kept :
      (r : Res (Unit {0})) (s : CmnSystem W)
      → Post (λ _ _. ⊥) (Out W) r s
      → Kept (wind_up W (turn W) r s).0 (wind_up W (turn W) r s).1
  unfolding wind_up stopped set_fields Joined
  wind_up-Kept (val a) s h = absurd h
  wind_up-Kept (exit threw) s h = absurd h
  wind_up-Kept (exit hung) s h = record { place = h; alive_joined = λ e. cc }
  wind_up-Kept (exit broke) s h =
      let stands =
        Post-collapse (Joined h.place h.session h.lead) _ _
          ((stop_alive-Stands h.place h.session h.lead).at s h.stands) in
      subst (λ x. Kept x.0 x.1) (sym (destroy_alive-joined W (turn W) _ _ _ stands.1))
        (record { place = somewhere W h.place h.session h.lead _ stands.0; alive_joined = λ e. cc })

  loop-Kept :
      (fuel : ℕ) (a : Agent)
      → Triple (Standing W seeded [] []) (forever W (turn W) 1 (body W fuel a)) (λ _ _. ⊥) (Out W)
  unfolding forever
  loop-Kept fuel a = body-Stands W fuel a ⟫ λ _. record { at = λ s h. absurd h }

  looped-Kept :
      (fuel : ℕ) (r : Res Agent) (s : CmnSystem W)
      → Post (λ _. Standing W seeded [] []) (Thrown W) r s
      → Kept (looped W (turn W) 1 (body W fuel) r s).0 (looped W (turn W) 1 (body W fuel) r s).1
  unfolding looped
  looped-Kept fuel (val a) s h = wind_up-Kept _ _ ((loop-Kept fuel a).at s h)
  looped-Kept fuel (exit threw) s h = record { place = h; alive_joined = λ e. cc }
  looped-Kept fuel (exit broke) s h = absurd h
  looped-Kept fuel (exit hung) s h = absurd h

  -- A workflow that has been constructed and not yet run.
  pub record IsFresh (s : CmnSystem W) : Type 0 where
    pub no_requests : s.log ≡ []
    pub no_traces : s.inserted ≡ []
    pub no_session : s.own.session_guid ≡ []
    pub no_lead : s.own.lead_guid ≡ []

  -- What the constructor makes is fresh.
  pub new_workflow-IsFresh :
      (position : ℕ) (b : Barrier) (e : W.State) → IsFresh (new_workflow W position b e)
  unfolding new_workflow
  new_workflow-IsFresh position b e = record {
    no_requests = refl;
    no_traces = refl;
    no_session = refl;
    no_lead = refl;
  }

  begin-Standing : (s : CmnSystem W) → IsFresh s → Standing W created [] [] (begin W (turn W) s)
  unfolding begin set_fields phase
  begin-Standing s f = record {
    accepted = rw f.no_requests;
    session_kept = f.no_session;
    lead_kept = f.no_lead;
    fits = Fits-nothing created;
    traced = rw (f.no_requests, f.no_traces) (IsNamed-nil W event_of);
  }

  sequence-Kept :
      (fuel : ℕ) (s : CmnSystem W) → IsFresh s → Kept (sequence W fuel s).0 (sequence W fuel s).1
  unfolding sequence run
  sequence-Kept fuel s f = looped-Kept fuel _ _ (prepare-Stands.at _ (begin-Standing s f))

  -- Whatever the servers answer and however the threads interleave, the requests that a new
  -- workflow's `sequence` and its alive thread make are in the order of the protocol, each with the
  -- guid of the session and of the lead that the answers gave.
  pub sequence-phase :
      (fuel : ℕ) (s : CmnSystem W)
      → IsFresh s
      → (p : Phase) × (phase W (sequence W fuel s).1.log ≡ some p)
  sequence-phase fuel s f =
      let place = (sequence-Kept fuel s f).place in (place.place, place.stands.accepted)

  -- If traces are enabled, each of the two threads of a new CMNWorkflow has handed over one trace for
  -- each of its own requests, in the order of these, with the request's own command and success; if
  -- they are not, none.
  pub sequence-IsTraced :
      (fuel : ℕ) (s : CmnSystem W)
      → IsFresh s
      → IsTraced W (sequence W fuel s).1.log (sequence W fuel s).1.inserted
  sequence-IsTraced fuel s f = (sequence-Kept fuel s f).place.stands.traced

  -- If the core library's calls in its loop throw nothing, the alive thread of a new CMNWorkflow is
  -- never destroyed while it is joinable.
  pub sequence_joins : (fuel : ℕ) (s : CmnSystem W) → IsFresh s → (sequence W fuel s).0 ≢ terminated
  sequence_joins fuel s f = (sequence-Kept fuel s f).alive_joined
