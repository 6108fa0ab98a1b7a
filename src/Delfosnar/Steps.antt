-- ===== src/Delfosnar/Steps.antt =====
-- The first steps of a round of `delfosnarWorkflow` against the protocol.
use delfos.Prelude.{◌≡◌, refl, ap, Bool, [], Text, text_eq_refl}
use delfos.World.{World}
use delfos.World.Requests.{alive_branchgroup, create_delfosnar, available}
use delfos.Monad.{Exit, threw}
use delfos.Monad.Triple.{Triple, Triple-pure, Triple-fact, Triple-weaken, Triple-leave_unless, ◌⟫◌}
use delfos.Cmn.Protocol.{on}
use delfos.Protocol.{Place}
use delfos.Protocol.Rules.{
  Standing, somewhere, Out, gets-Stands, word-Stands, own-Stands, traced-Stands, pause-Stands,
  stop-Stands,
}
use delfos.Desktop.Phases.{
  Phase, Words, Fits, Fits-nothing, Fits-session, Fits-lead, words_of, text_eq_same,
}
use delfos.Desktop.Steps.{
  on-ap, asked-Stands, getvateams-Stands, login-Stands, change_status-Stands, check_vateams-Stands,
  get_availability-Stands,
}
use delfos.Delfosnar.State.{DelfosnarSystem, set_session, delfosnar_title, delfosnar_description}
use delfos.Delfosnar.Sequence.{Host, desktop}
use delfos.Delfosnar.Room.{alive_delfosnar, delfosnar_found, create}
use delfos.Delfosnar.Protocol.{
  Stage, seeded, closed, logged, ready, offered, living, held, halted, crashed, stage, account,
}
use delfos.Delfosnar.Obeys.{quiet}

pub Fits-on : {p q : Phase Stage} (b : Bool) (v : Words) → Fits p v → Fits q v → Fits (on b p q) v
Fits-on b v f g = on-ap b (λ p. Fits p v) f g

module _ (W : World) where
  -- The one phase in which an exception leaves the loop.
  abbrev pub Crash : Place (account W) → Type 0
  Crash p = p.stage ≡ crashed

  -- At a stage, when the fields hold the guids that it knows.
  abbrev pub Here : Stage → Text → Text → DelfosnarSystem W → Type 0
  Here k s d = Standing (account W) (stage k s d) (words_of s d [])

  abbrev pub Left : Exit → DelfosnarSystem W → Type 0
  Left = Out (account W) Crash

  pub desktop-Stands :
      (a : Host) → Triple (Here seeded [] []) (desktop W a) (λ s. Here offered s []) Left
  unfolding desktop
  desktop-Stands a = stop-Stands (account W) (quiet W) _ _ Crash ⟫ λ _.
      pause-Stands (account W) (quiet W) _ _ ⟫ λ _.
      getvateams-Stands (account W) Crash (quiet W) _ _ (λ g c x. refl) (Fits-nothing _)
        a.agent_guid a.agent_vacenters
      ⟫ λ _. pause-Stands (account W) (quiet W) _ _ ⟫ λ _.
          stop-Stands (account W) (quiet W) _ _ Crash ⟫ λ _.
          login-Stands (account W) Crash (quiet W) set_session (λ own. own.session_guid) _
            (λ s. words_of s [] []) (λ g own e. ap (λ w. words_of g w.lead []) e)
            (λ g own e. ap (λ w. w.session) e) _ (λ s. stage logged s []) (stage closed [] [])
            (λ g x. refl) (λ g. Fits-nothing _) (Fits-nothing _) (λ g. Fits-session _) a.agent_guid
          ⟫ λ s. pause-Stands (account W) (quiet W) _ _ ⟫ λ _.
              stop-Stands (account W) (quiet W) _ _ Crash ⟫ λ _.
              change_status-Stands (account W) Crash (quiet W) _ _ (stage ready s [])
                (stage halted s []) available a.agent_guid s (λ x. rw (text_eq_refl s))
                (Fits-session _) (Fits-session _)
              ⟫ λ _. pause-Stands (account W) (quiet W) _ _ ⟫ λ _.
                  stop-Stands (account W) (quiet W) _ _ Crash ⟫ λ _.
                  check_vateams-Stands (account W) Crash (quiet W) _ _ (stage halted s [])
                    a.agent_guid s (λ t x. rw (text_eq_refl s)) (Fits-session _) (Fits-session _)
                    a.agent_vateams
                  ⟫ λ _.
                      get_availability-Stands (account W) Crash (quiet W) _ _ (stage offered s [])
                        (stage halted s []) a.branch_guid (λ x. refl) (Fits-session _)
                        (Fits-session _)
                      ⟫ λ _. pause-Stands (account W) (quiet W) _ _ ⟫ λ _.
                          stop-Stands (account W) (quiet W) _ _ Crash ⟫ λ _. Triple-pure s

  -- A failure throws, in the phase that it leads to.
  pub alive_delfosnar-Stands :
      (s agent group : Text)
      → Triple (Here offered s []) (alive_delfosnar W agent group) (λ _. Here living s []) Left
  unfolding alive_delfosnar
  alive_delfosnar-Stands s agent group =
      word-Stands (account W) (stage offered s []) _ (λ own. own.session_guid) s
        (λ own e. ap (λ w. w.session) e)
      ⟫ λ session. Triple-fact λ e.
        traced-Stands (account W) (quiet W) (stage offered s []) (words_of s [] [])
          (λ (ok, _). on ok (stage living s []) (stage crashed s []))
          (alive_branchgroup agent session group) (λ x. rw (text_eq_same {x = session} {y = s} e))
          (λ (ok, _).
            Fits-on ok (words_of s [] []) (Fits-session (stage living s []))
              (Fits-session (stage crashed s [])))
        ⟫ λ answer.
            Triple-leave_unless
              (λ ok.
                Standing (account W) (on ok (stage living s []) (stage crashed s []))
                  (words_of s [] []))
              answer.0 threw
              (λ t h. (somewhere (account W) (stage crashed s []) (words_of s [] []) t h, refl))

  pub create-Stands :
      (s group agent : Text)
      → Triple
          (Here living s [])
          (create W group agent s)
          (λ _ t. (d : Text) × Here held s d t)
          Left
  unfolding create
  create-Stands s group agent =
      gets-Stands (account W) (stage living s []) _ (λ s. s.seed_guid) ⟫ λ seed.
      asked-Stands (account W) Crash (quiet W) (stage living s []) _
        (λ json. stage held s (delfosnar_found W json [])) (stage halted s [])
        (create_delfosnar group delfosnar_title delfosnar_description seed agent s)
        (λ x. rw (text_eq_refl s)) (λ json. Fits-session _) (Fits-session _)
      ⟫ λ json.
          Triple-weaken (λ _ t h. (_, h)) (λ e t h. h)
            (own-Stands (account W) (stage held s (delfosnar_found W json [])) _ _
              (words_of s (delfosnar_found W json []) [])
              (λ own e. ap (λ w. words_of w.session (delfosnar_found W json w.lead) []) e)
              (Fits-lead _))
