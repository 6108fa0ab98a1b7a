-- ===== src/Workflow/Run.antt =====
-- What every `sequence` does around its loop, and the requests that need the scheduler.
use delfos.Prelude.{ℕ, zero, suc, ◌≡◌, refl, Bool, true, false, not, if◌then◌else◌, Text}
use delfos.Barrier.{increment}
use delfos.World.{World, Turn}
use delfos.World.Requests.{create_seed, update, create_room, update_room}
use delfos.Monad.{
  broke, threw, hung, Res, val, exit, M, pure, gets, modify, leave, leave_if, ◌>>=◌, ◌>>◌,
}
use delfos.Workflow.State.{
  System, AliveThread, absent, starting, ended, joined, active, ask, set_fields,
}
use delfos.Workflow.Calls.{workflow_chatfile_pod}
use delfos.Workflow.Schedule.{schedule, traced}

-- How `sequence` ends: it returns after its loop, or from its handler of exceptions, or
-- `std::terminate` is called, since the joinable `alive_thread` is destroyed by an exception.
-- `unfinished` is the model's, for too little fuel.
pub data Outcome : Type 0 where
  returned caught terminated unfinished : Outcome

-- Whether there is a thread that has not been joined.
unfoldable pub joinable : AliveThread → Bool
joinable absent = false
joinable joined = false
joinable starting = true
joinable ended = true
joinable (active guid) = true

unfoldable pub join : AliveThread → AliveThread
unfolding joinable
join x = if joinable x then joined else x

pub joinable-join : (x : AliveThread) → joinable (join x) ≡ false
unfolding joinable join
joinable-join absent = refl
joinable-join joined = refl
joinable-join starting = refl
joinable-join ended = refl
joinable-join (active guid) = refl

module _ (W : World) {X : Type 0} (turn : Turn W.Http → M (System W X) (Unit {0})) where
  unfoldable pub gari_create_seed : M (System W X) (Unit {0})
  gari_create_seed = do
    guid ← ask W W.new_guid
    modify (set_fields W (λ f. record f { seed_guid = guid }))
    answer ← traced W turn create_room (create_seed guid)
    leave_if (not answer.0) threw

  unfoldable pub gari_update_room : Text → M (System W X) Bool
  gari_update_room gari_session_guid = do
    user ← gets (λ s. s.gari_user_guid)
    answer ← traced W turn update_room (update gari_session_guid user workflow_chatfile_pod)
    pure answer.0

  -- `_workflow_id = syscall(SYS_gettid); _workflow_running.store(true);`
  unfoldable pub begin : System W X → System W X
  unfolding set_fields
  begin = set_fields W (λ f. record f { workflow_id = W.thread_id; workflow_running = true })

  -- `_barrier.increment()`
  unfoldable pub increment_barrier : M (System W X) (Unit {0})
  increment_barrier = modify (λ s. record s { barrier = increment s.barrier })

  -- `std::thread alive_thread(...)`
  unfoldable pub spawn_alive : M (System W X) (Unit {0})
  spawn_alive = modify (λ s. record s { alive = starting })

  -- `alive_can_continue.store(false)`, and `join` of a joinable thread while the others still run
  unfoldable pub stop_alive : M (System W X) (Unit {0})
  unfolding join
  stop_alive = do schedule W turn; modify (λ s. record s { alive = join s.alive })

  unfoldable pub stopped : System W X → System W X
  unfolding set_fields
  stopped = set_fields W (λ f. record f { workflow_running = false })

  -- `while (true)`
  unfoldable pub forever : ℕ → M (System W X) (Unit {0}) → M (System W X) (Unit {0})
  forever zero body = leave hung
  forever (suc fuel) body = body >>= λ _. forever fuel body

  -- `alive_thread` is destroyed: a joinable one calls `std::terminate`.
  unfoldable pub destroy_alive :
      AliveThread → Outcome × System W X → System W X → Outcome × System W X
  unfolding joinable
  destroy_alive x after s = elim (joinable x) [ true ↦ (terminated, s) | false ↦ after ]

  -- After the loop. An exception destroys `alive_thread` as it stands.
  unfoldable pub wind_up : Res (Unit {0}) → System W X → Outcome × System W X
  unfolding stopped stop_alive destroy_alive
  wind_up (exit broke) s =
      let s' = (stop_alive s).1 in destroy_alive s'.alive (returned, stopped s') s'
  wind_up (exit threw) s = destroy_alive s.alive (caught, s) s
  wind_up (exit hung) s = (unfinished, s)
  wind_up (val _) s = (unfinished, s)

  unfoldable pub looped :
      {A : Type 0} → ℕ → (A → M (System W X) (Unit {0})) → Res A → System W X → Outcome × System W X
  looped fuel body (val a) s = let (r, s') = forever fuel (body a) s in wind_up r s'
  looped fuel body (exit threw) s = (caught, s)
  looped fuel body (exit broke) s = (unfinished, s)
  looped fuel body (exit hung) s = (unfinished, s)

  -- `prepare` is the code before the loop, which starts the alive thread last.
  unfoldable pub run :
      {A : Type 0}
      → M (System W X) A
      → (A → M (System W X) (Unit {0}))
      → ℕ
      → System W X
      → Outcome × System W X
  unfolding begin looped
  run prepare body fuel s = let (r, s') = prepare (begin s) in looped fuel body r s'

  -- A thread that is not joinable is destroyed without harm.
  pub destroy_alive-joined :
      (x : AliveThread) (after : Outcome × System W X) (s : System W X)
      → joinable x ≡ false
      → destroy_alive x after s ≡ after
  unfolding destroy_alive
  destroy_alive-joined x after s e = rw (e, destroy_alive) refl

  -- What holds of the two ends holds of the one that is taken.
  pub destroy_alive-cases :
      (P : Outcome → System W X → Type 0) (x : AliveThread) (after : Outcome × System W X)
      (s : System W X)
      → P after.0 after.1
      → P terminated s
      → P (destroy_alive x after s).0 (destroy_alive x after s).1
  unfolding destroy_alive
  destroy_alive-cases P x after s h k =
      elim (joinable x)
        as (λ b.
          let o : Outcome × System W X = elim b [ true ↦ (terminated, s) | false ↦ after ] in
          P o.0 o.1) [ true ↦ k | false ↦ h ]
