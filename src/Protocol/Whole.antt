-- ===== src/Protocol/Whole.antt =====
-- Whole runs of a `sequence` against its protocol.
use delfos.Prelude.{false, ℕ, zero, suc, ◌≡◌, sym, subst, []}
use delfos.World.{World, Turn}
use delfos.World.Requests.{event_of}
use delfos.Monad.{broke, threw, hung, Res, val, exit, M, modify}
use delfos.Monad.Triple.{Triple, Post, Post-collapse, Triple-leave, ◌⟫◌}
use delfos.Workflow.State.{System, set_fields}
use delfos.Workflow.Rules.{KeptBy}
use delfos.Workflow.Run.{
  Outcome, caught, terminated, stopped, destroy_alive-joined, joinable, joinable-join,
  destroy_alive-cases, stop_alive, begin, forever, wind_up, looped, run,
}
use delfos.Workflow.Traced.{IsNamed-nil}
use delfos.Protocol.{Account, Place, At, phase}
use delfos.Protocol.Rules.{Standing, Somewhere, somewhere, Thrown, Out, lock-Stands}

module _ {W : World} {X : Type 0} (a : Account W X) where
  -- A workflow that has been constructed and not yet run.
  pub record IsFresh (v : a.Words) (s : System W X) : Type 0 where
    pub no_requests : s.log ≡ []
    pub no_traces : s.inserted ≡ []
    pub first_words : a.words s.own ≡ v

module _ {W : World} {X : Type 0} (a : Account W X) (Crash : Place a → Type 0) where
  -- What is said of the end of a run.
  pub record Kept (o : Outcome) (s : System W X) : Type 0 where
    pub place : Somewhere a s
    pub crashed : o ≡ terminated → Crash place.place

  module _ {turn : Turn W.Http → M (System W X) (Unit {0})}
      (quiet : (p : Place a) (v : a.Words) → KeptBy W turn (At a p v)) where
    Joined : Place a → a.Words → System W X → Type 0
    Joined p v s = Standing a p v s × (joinable s.alive ≡ false)

    stop_alive-Stands :
        (p : Place a) (v : a.Words)
        → Triple (Standing a p v) (stop_alive W turn) (λ _. Joined p v) (λ _. Joined p v)
    unfolding stop_alive modify Joined
    stop_alive-Stands p v =
        lock-Stands a quiet p v ⟫ λ _. record { at = λ s h. (h, joinable-join s.alive) }

    wind_up-Kept :
        (r : Res (Unit {0})) (s : System W X)
        → Post (λ _ _. ⊥) (Out a Crash) r s
        → Kept (wind_up W turn r s).0 (wind_up W turn r s).1
    unfolding wind_up stopped set_fields Joined
    wind_up-Kept (val x) s h = absurd h
    wind_up-Kept (exit threw) s (w, crash) =
        destroy_alive-cases W turn Kept s.alive (caught, s) s
          (record { place = w; crashed = λ e. crash }) (record { place = w; crashed = λ e. crash })
    wind_up-Kept (exit hung) s h = record { place = h; crashed = λ e. absurd cc }
    wind_up-Kept (exit broke) s h =
        let stands =
          Post-collapse (Joined h.place h.said) _ _
            ((stop_alive-Stands h.place h.said).at s h.stands) in
        subst (λ x. Kept x.0 x.1) (sym (destroy_alive-joined W turn _ _ _ stands.1))
          (record { place = somewhere a h.place h.said _ stands.0; crashed = λ e. absurd cc })

    module _ {A : Type 0} {body : A → M (System W X) (Unit {0})} {p : Place a} {v : a.Words} where
      loop-Kept :
          ((x : A) → Triple (Standing a p v) (body x) (λ _. Standing a p v) (Out a Crash))
          → (fuel : ℕ) (x : A)
          → Triple (Standing a p v) (forever W turn fuel (body x)) (λ _ _. ⊥) (Out a Crash)
      unfolding forever
      loop-Kept rounds zero x = Triple-leave hung (somewhere a p v)
      loop-Kept rounds (suc fuel) x = rounds x ⟫ λ _. loop-Kept rounds fuel x

      looped-Kept :
          ((x : A) → Triple (Standing a p v) (body x) (λ _. Standing a p v) (Out a Crash))
          → (fuel : ℕ) (r : Res A) (s : System W X) → Post (λ _. Standing a p v) (Thrown a) r s
          → Kept (looped W turn fuel body r s).0 (looped W turn fuel body r s).1
      unfolding looped
      looped-Kept rounds fuel (val x) s h = wind_up-Kept _ _ ((loop-Kept rounds fuel x).at s h)
      looped-Kept rounds fuel (exit threw) s h = record { place = h; crashed = λ e. absurd cc }
      looped-Kept rounds fuel (exit broke) s h = absurd h
      looped-Kept rounds fuel (exit hung) s h = absurd h

      -- The code before the loop leads from the start to a place to which each round comes back.
      pub run-Kept :
          {prepare : M (System W X) A} (v' : a.Words)
          → a.Fits a.machine.start v'
          → Triple (Standing a a.machine.start v') prepare (λ _. Standing a p v) (Thrown a)
          → ((x : A) → Triple (Standing a p v) (body x) (λ _. Standing a p v) (Out a Crash))
          → (fuel : ℕ) (s : System W X) → IsFresh a v' s
          → let (o, s') = run W turn prepare body fuel s in Kept o s'
      unfolding run begin set_fields phase
      run-Kept v' fits prepared rounds fuel s fresh = looped-Kept rounds fuel _ _ (
          prepared.at _ (record {
            accepted = rw fresh.no_requests;
            kept = fresh.first_words;
            fits = fits;
            traced = rw (fresh.no_requests, fresh.no_traces) (IsNamed-nil W event_of);
          }))
