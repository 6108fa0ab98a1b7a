-- ===== src/Scheduled/Runs.antt =====
-- Whole runs of `ScheduledWorkflow::sequence` against the protocol.
use delfos.Prelude.{ℕ, ◌≡◌, refl, ◌≢◌, [], ◌∷◌, some, ap, Text, text_eq_refl, is_empty}
use delfos.Barrier.{Barrier}
use delfos.World.{World}
use delfos.World.Requests.{available, busy, request_lead}
use delfos.Monad.{Exit}
use delfos.Monad.Triple.{Triple, Triple-pure, Triple-fact, ◌⟫◌}
use delfos.Workflow.Buckets.{get_branch_guid}
use delfos.Workflow.Calls.{generate_random_phone}
use delfos.Workflow.Run.{terminated}
use delfos.Workflow.Traced.{IsTraced}
use delfos.Protocol.{Place, phase}
use delfos.Protocol.Rules.{
  Standing, Thrown, Out, ask-Stands, gets-Stands, tracking-Stands, pause-Stands, stop-Stands,
}
use delfos.Protocol.Whole.{Kept, IsFresh, run-Kept}
use delfos.Desktop.{Staff, lead_found}
use delfos.Desktop.Phases.{Fits, Fits-nothing, Fits-session, Fits-all, words_of, text_eq_same}
use delfos.Desktop.Steps.{
  on-ap, asked-Stands, staff-Stands, create_seed-Stands, spawn_alive-Stands, getvateams-Stands,
  login-Stands, change_status-Stands, check_vateams-Stands,
}
use delfos.Desktop.Calls.{
  wait_bridged-Stands, open_session-Stands, capture_lead-Stands, set_result-Stands, logout-Stands,
}
use delfos.Scheduled.{
  ScheduledSystem, new_workflow, set_session, set_tracker, prepare, set_leads, schedule_lead,
  lead_session_found, desktop, talk, body, sequence,
}
use delfos.Scheduled.Protocol.{
  Stage, created, seeded, closed, asked, logged, occupied, ready, leading, resulted, halted, stage,
  led_by, account,
}
use delfos.Scheduled.Obeys.{quiet}

module _ (W : World) where
  -- No phase lets an exception out of the loop.
  abbrev Crash : Place (account W) → Type 0
  Crash p = ⊥

  -- At a stage, when the fields hold the guids that it knows.
  abbrev Here : Stage → Text → Text → Text → ScheduledSystem W → Type 0
  Here k s l t = Standing (account W) (stage k s l t) (words_of s l t)

  abbrev Left : Exit → ScheduledSystem W → Type 0
  Left = Out (account W) Crash

  prepare-Stands :
      Triple (Here created [] [] []) (prepare W) (λ _. Here seeded [] [] []) (Thrown (account W))
  unfolding prepare get_branch_guid
  prepare-Stands = staff-Stands (account W) Crash (quiet W) _ _ ⟫ λ a. Triple-pure _ ⟫ λ branch.
      create_seed-Stands (account W) Crash (quiet W) _ _ (stage seeded [] [] [])
        (stage closed [] [] []) (λ g x. refl) (Fits-nothing _) (Fits-nothing _)
      ⟫ λ _. spawn_alive-Stands (account W) Crash (quiet W) _ _ ⟫ λ _. Triple-pure (a, branch)

  schedule_lead-Stands :
      (branch : Text)
      → Triple (Here seeded [] [] []) (schedule_lead W branch) (λ _. Here asked [] [] []) Left
  unfolding schedule_lead generate_random_phone
  schedule_lead-Stands branch =
      ask-Stands (account W) (stage seeded [] [] []) _ W.new_guid ⟫ λ metadata.
      (ask-Stands (account W) (stage seeded [] [] []) _ W.draw_phone ⟫ λ _. Triple-pure _)
      ⟫ λ phone.
          tracking-Stands (account W) (stage seeded [] [] []) _ (λ own. own.tracker) (set_tracker W)
            (λ t own. refl) _
          ⟫ λ _. ask-Stands (account W) (stage seeded [] [] []) _ W.now ⟫ λ now.
              gets-Stands (account W) (stage seeded [] [] []) _ (λ s. s.seed_guid) ⟫ λ seed.
              asked-Stands (account W) Crash (quiet W) (stage seeded [] [] []) _
                (λ _. stage asked [] [] []) (stage closed [] [] []) (request_lead _) (λ x. refl)
                (λ json. Fits-nothing _) (Fits-nothing _)
              ⟫ λ json. Triple-pure tt

  desktop-Stands :
      (a : Staff) (branch : Text)
      → Triple (Here seeded [] [] []) (desktop W a branch) (λ s. Here ready s [] []) Left
  unfolding desktop
  desktop-Stands a branch = stop-Stands (account W) (quiet W) _ _ Crash ⟫ λ _.
      pause-Stands (account W) (quiet W) _ _ ⟫ λ _. schedule_lead-Stands branch ⟫ λ _.
      pause-Stands (account W) (quiet W) _ _ ⟫ λ _.
      stop-Stands (account W) (quiet W) _ _ Crash ⟫ λ _.
      getvateams-Stands (account W) Crash (quiet W) _ _ (λ g c x. refl) (Fits-nothing _)
        a.agent_guid a.agent_vacenters
      ⟫ λ _. pause-Stands (account W) (quiet W) _ _ ⟫ λ _.
          stop-Stands (account W) (quiet W) _ _ Crash ⟫ λ _.
          login-Stands (account W) Crash (quiet W) (set_session W) (λ own. own.session_guid) _
            (λ s. words_of s [] []) (λ g own e. ap (λ w. words_of g w.lead w.third) e)
            (λ g own e. ap (λ w. w.session) e) _ (λ s. stage logged s [] []) (stage closed [] [] [])
            (λ g x. refl) (λ g. Fits-nothing _) (Fits-nothing _) (λ g. Fits-session _) a.agent_guid
          ⟫ λ s. pause-Stands (account W) (quiet W) _ _ ⟫ λ _.
              stop-Stands (account W) (quiet W) _ _ Crash ⟫ λ _.
              check_vateams-Stands (account W) Crash (quiet W) _ _ (stage halted s [] [])
                a.agent_guid s (λ t x. rw (text_eq_refl s)) (Fits-session _) (Fits-session _)
                a.agent_vateams
              ⟫ λ _. pause-Stands (account W) (quiet W) _ _ ⟫ λ _.
                  stop-Stands (account W) (quiet W) _ _ Crash ⟫ λ _.
                  change_status-Stands (account W) Crash (quiet W) _ _ (stage occupied s [] [])
                    (stage halted s [] []) busy a.agent_guid s (λ x. rw (text_eq_refl s))
                    (Fits-session _) (Fits-session _)
                  ⟫ λ _. pause-Stands (account W) (quiet W) _ _ ⟫ λ _.
                      stop-Stands (account W) (quiet W) _ _ Crash ⟫ λ _.
                      change_status-Stands (account W) Crash (quiet W) _ _ (stage ready s [] [])
                        (stage halted s [] []) available a.agent_guid s (λ x. rw (text_eq_refl s))
                        (Fits-session _) (Fits-session _)
                      ⟫ λ _. Triple-pure s

  Fits-led : (s t l : Text) → Fits (led_by s t l) (words_of s l t)
  Fits-led s t [] = Fits-all (stage halted s [] t)
  Fits-led s t (x ∷ l) = Fits-all (stage leading s (x ∷ l) t)

  Fits-before_led : (s t l : Text) → Fits (led_by s t l) (words_of s [] [])
  Fits-before_led s t l =
      on-ap (is_empty l) (λ p. Fits p (words_of s [] [])) (Fits-session (stage halted s [] t))
        (Fits-session (stage leading s l t))

  talk-Stands :
      (fuel : ℕ) (a : Staff) (s : Text)
      → Triple (Here ready s [] []) (talk W fuel a s) (λ _. Here seeded [] [] []) Left
  unfolding talk
  talk-Stands fuel a s =
      tracking-Stands (account W) _ _ (λ own. own.tracker) (set_tracker W) (λ t own. refl) _ ⟫ λ _.
      wait_bridged-Stands (account W) Crash (quiet W) _ _ _ _ (λ own e. e) (Fits-session _) fuel
      ⟫ λ _.
          open_session-Stands (account W) Crash (quiet W) _ (λ own. own.session_guid) _ _ s
            (λ json. led_by s (lead_session_found W json) (lead_found W json))
            (stage halted s [] []) (λ own e. ap (λ w. w.session) e)
            (λ phone agent x. rw (text_eq_refl s)) (λ json. Fits-before_led s _ _) (Fits-session _)
            a.agent_guid
          ⟫ λ json.
              let l = lead_found W json in
              let t = lead_session_found W json in
              capture_lead-Stands (account W) Crash (quiet W) (set_leads W l t)
                (λ own. own.lead_guid) _ (words_of s l t) l (stage leading s l t)
                (stage halted s [] t) (λ own e. ap (λ w. words_of w.session l t) e)
                (λ own e. ap (λ w. w.lead) e) (Fits-led s t l)
              ⟫ λ found. Triple-fact λ e. pause-Stands (account W) (quiet W) _ _ ⟫ λ _.
                  stop-Stands (account W) (quiet W) _ _ Crash ⟫ λ _.
                  set_result-Stands (account W) Crash (quiet W) (set_leads W [] []) _
                    (words_of s [] []) found (stage leading s l t) (stage resulted s [] [])
                    (stage halted s [] []) (λ own e. ap (λ w. words_of w.session [] []) e)
                    (λ x. rw (text_eq_same {x = found} {y = l} e)) (Fits-session _) (Fits-session _)
                    (Fits-session _)
                  ⟫ λ _. pause-Stands (account W) (quiet W) _ _ ⟫ λ _.
                      stop-Stands (account W) (quiet W) _ _ Crash ⟫ λ _.
                      logout-Stands (account W) Crash (quiet W) (set_session W []) _
                        (words_of [] [] []) a.agent_guid s (stage resulted s [] [])
                        (stage seeded [] [] []) (stage closed [] [] [])
                        (λ own e. ap (λ w. words_of [] w.lead w.third) e) (λ x. rw (text_eq_refl s))
                        (Fits-nothing _) (Fits-nothing _) (Fits-nothing _)

  body-Stands :
      (fuel : ℕ) (x : Staff × Text)
      → Triple (Here seeded [] [] []) (body W fuel x) (λ _. Here seeded [] [] []) Left
  unfolding body
  body-Stands fuel (a, branch) = desktop-Stands a branch ⟫ λ s. talk-Stands fuel a s

  -- What the constructor makes is fresh.
  pub new_scheduled-IsFresh :
      (position : ℕ) (b : Barrier) (e : W.State)
      → IsFresh (account W) (words_of [] [] []) (new_workflow W position b e)
  unfolding new_workflow
  new_scheduled-IsFresh position b e = record {
    no_requests = refl;
    no_traces = refl;
    first_words = refl;
  }

  sequence-Kept :
      (rounds fuel : ℕ) (s : ScheduledSystem W)
      → IsFresh (account W) (words_of [] [] []) s
      → let (o, s') = sequence W rounds fuel s in Kept (account W) Crash o s'
  unfolding sequence
  sequence-Kept rounds fuel s fresh =
      run-Kept (account W) Crash (quiet W) (words_of [] [] []) (Fits-nothing _) prepare-Stands
        (body-Stands fuel) rounds s fresh

  -- However many rounds a new ScheduledWorkflow makes, whatever the servers answer and however the
  -- threads interleave, its requests are in the order of the protocol: each is for the session that
  -- the last login gave and, from the opening of the session on, for the lead whose guid its answer
  -- held. The alive thread speaks for these guids and reads the room of the lead's session that
  -- the same answer held, and no others.
  pub scheduled_rounds-phase :
      (rounds fuel : ℕ) (s : ScheduledSystem W)
      → IsFresh (account W) (words_of [] [] []) s
      → let (o, s') = sequence W rounds fuel s in
        (p : Place (account W)) × (phase (account W).machine s'.log ≡ some p)
  scheduled_rounds-phase rounds fuel s fresh =
      let place = (sequence-Kept rounds fuel s fresh).place in (place.place, place.stands.accepted)

  -- If traces are enabled, each of the two threads of a new ScheduledWorkflow has handed over one trace for
  -- each of its own requests, in the order of these, with the request's own command and success; if
  -- they are not, none.
  pub scheduled-IsTraced :
      (rounds fuel : ℕ) (s : ScheduledSystem W)
      → IsFresh (account W) (words_of [] [] []) s
      → let (o, s') = sequence W rounds fuel s in IsTraced W s'.log s'.inserted
  scheduled-IsTraced rounds fuel s fresh = (sequence-Kept rounds fuel s fresh).place.stands.traced

  -- If the core library's calls in its loop throw nothing, the alive thread of a new
  -- ScheduledWorkflow is never destroyed while it is joinable.
  pub scheduled_joins :
      (rounds fuel : ℕ) (s : ScheduledSystem W)
      → IsFresh (account W) (words_of [] [] []) s
      → (sequence W rounds fuel s).0 ≢ terminated
  scheduled_joins rounds fuel s fresh = λ e. absurd ((sequence-Kept rounds fuel s fresh).crashed e)
