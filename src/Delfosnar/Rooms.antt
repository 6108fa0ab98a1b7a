-- ===== src/Delfosnar/Rooms.antt =====
-- The steps of `delfosnarWorkflow` in the room of a delfosnar, and a whole round.
use delfos.Prelude.{
  ℕ, zero, suc, ◌+◌, ◌≡◌, refl, ap, subst, ◌∙◌, Bool, some, true, ◌&&◌, ltb, [], Text, text_eq_refl,
  arith,
}
use delfos.World.{World}
use delfos.World.Requests.{RoomUser, presenter, viewer, close, read_session, update}
use delfos.Monad.{broke}
use delfos.Monad.Triple.{
  Triple, Triple-pure, Triple-if, Triple-some, Triple-read, Triple-pre, Triple-leave_unless, ◌⟫◌,
}
use delfos.Workflow.State.{sequence_thread}
use delfos.Workflow.Calls.{workflow_chatfile_pod}
use delfos.Cmn.Protocol.{on}
use delfos.Protocol.Rules.{
  Standing, somewhere, gets-Stands, own-Stands, lock-Stands, traced-Stands, pause-Stands,
  stop-Stands,
}
use delfos.Desktop.Phases.{Fits-nothing, Fits-lead, words_of}
use delfos.Desktop.Steps.{asked-Stands}
use delfos.Desktop.Calls.{logout-Stands}
use delfos.Delfosnar.State.{Own, set_user, cleared, delfosnar_update_room}
use delfos.Delfosnar.Sequence.{Host, hold, body}
use delfos.Delfosnar.Room.{store_user, gari_create_user, gari_update_room, update_or_break, updates}
use delfos.Delfosnar.Protocol.{
  Stage, seeded, closed, offered, held, presented, updated, ended, halted, stage, all_updates,
  account,
}
use delfos.Delfosnar.Obeys.{quiet}
use delfos.Delfosnar.Steps.{
  Fits-on, Crash, Here, Left, desktop-Stands, alive_delfosnar-Stands, create-Stands,
}

module _ (W : World) where
  store_user-Stands :
      (k : Stage) (s d : Text) (u : RoomUser) (json : W.Json)
      → Triple (Here W k s d) (store_user W u json) (λ _. Here W k s d) (Left W)
  unfolding store_user
  store_user-Stands k s d u json =
      let key = W.keys.room_user_id in
      Triple-if (W.has_member json key && W.is_uint (W.member json key))
        (λ _.
          own-Stands (account W) _ _ _ (words_of s d []) (λ own e. same u _ own ∙ e) (Fits-lead _))
        (λ _. Triple-pure tt)
    where
      same :
          (u : RoomUser) (n : ℕ) (own : Own)
          → words_of (set_user u n own).session_guid (set_user u n own).delfosnar_guid []
            ≡ words_of own.session_guid own.delfosnar_guid []
      same presenter n own = refl
      same viewer n own = refl
      same RoomUser.user n own = refl

  -- Reading the room as a new user leads from one stage to the next, whatever is answered.
  gari_create_user-Stands :
      (k k' : Stage) (s d : Text) (u : RoomUser)
      → ((x : Bool × W.Json)
          → (account W).machine.next sequence_thread (stage k s d) (read_session d u) x.0 x.1
            ≡ some (stage k' s d))
      → Triple (Here W k s d) (gari_create_user W u) (λ _. Here W k' s d) (Left W)
  unfolding gari_create_user
  gari_create_user-Stands k k' s d u moves =
      Triple-read _ (λ s. s.own.delfosnar_guid) d (λ s h. ap (λ w. w.lead) h.kept)
        (traced-Stands (account W) (quiet W) (stage k s d) _ (λ _. stage k' s d) (read_session d u)
            moves (λ _. Fits-lead _)
          ⟫ λ answer.
              Triple-if answer.0
                (λ _.
                  lock-Stands (account W) (quiet W) _ _ ⟫ λ _. store_user-Stands k' s d u answer.1)
                (λ _. Triple-pure tt)
              ⟫ λ _. Triple-pure answer.0)

  update-Stands :
      (n : ℕ) (s d : Text) (user_guid : Own → ℕ)
      → ltb n all_updates ≡ true
      → Triple
          (Here W (updated n) s d)
          (update_or_break W user_guid)
          (λ _. Here W (updated (suc n)) s d)
          (Left W)
  unfolding update_or_break gari_update_room
  update-Stands n s d user_guid h =
      (gets-Stands (account W) (stage (updated n) s d) _ (λ s. user_guid s.own) ⟫ λ user.
      Triple-read _ (λ s. s.own.delfosnar_guid) d (λ s h. ap (λ w. w.lead) h.kept)
        (traced-Stands (account W) (quiet W) (stage (updated n) s d) (words_of s d [])
            (λ (ok, _). on ok (stage (updated (suc n)) s d) (stage halted s d))
            (update d user workflow_chatfile_pod) (λ x. rw (text_eq_refl d, h))
            (λ (ok, _).
              Fits-on ok (words_of s d []) (Fits-lead (stage (updated (suc n)) s d))
                (Fits-lead (stage halted s d)))
          ⟫ λ answer.
              Triple-pure
                {Q = λ ok.
                  Standing (account W) (on ok (stage (updated (suc n)) s d) (stage halted s d))
                    (words_of s d [])}
                answer.0))
      ⟫ λ ok.
          Triple-leave_unless
            (λ ok.
              Standing (account W) (on ok (stage (updated (suc n)) s d) (stage halted s d))
                (words_of s d []))
            ok broke (somewhere (account W) (stage halted s d) (words_of s d []))
          ⟫ λ _. pause-Stands (account W) (quiet W) _ _ ⟫ λ _.
              stop-Stands (account W) (quiet W) _ _ (Crash W)

  -- So many rounds to go lead to the last update.
  updates-Stands :
      (k n : ℕ) (s d : Text)
      → n + (k + k) ≡ all_updates
      → Triple
          (Here W (updated n) s d)
          (updates W k)
          (λ _. Here W (updated all_updates) s d)
          (Left W)
  unfolding updates
  updates-Stands zero n s d e =
      Triple-pre (λ t h. subst (λ n. Here W (updated n) s d t) (omega arith) h)
        (Triple-pure {Q = λ _. Here W (updated all_updates) s d} tt)
  updates-Stands (suc k) n s d e =
      update-Stands n s d (λ own. own.gari_presenter_guid) (ground arith) ⟫ λ _.
      update-Stands (suc n) s d (λ own. own.gari_viewer_guid) (ground arith) ⟫ λ _.
      updates-Stands k (suc (suc n)) s d (omega arith)

  hold-Stands :
      (a : Host) (s : Text)
      → Triple (Here W offered s []) (hold W a s) (λ _. Here W seeded [] []) (Left W)
  unfolding hold
  hold-Stands a s = alive_delfosnar-Stands W s a.agent_guid a.branchgroup_guid ⟫ λ _.
      pause-Stands (account W) (quiet W) _ _ ⟫ λ _.
      stop-Stands (account W) (quiet W) _ _ (Crash W) ⟫ λ _.
      create-Stands W s a.branchgroup_guid a.agent_guid ⟫ λ _. Triple-some λ d.
        pause-Stands (account W) (quiet W) _ _ ⟫ λ _.
        stop-Stands (account W) (quiet W) _ _ (Crash W) ⟫ λ _.
        gari_create_user-Stands held presented s d presenter (λ x. rw (text_eq_refl d)) ⟫ λ _.
        pause-Stands (account W) (quiet W) _ _ ⟫ λ _.
        stop-Stands (account W) (quiet W) _ _ (Crash W) ⟫ λ _.
        gari_create_user-Stands presented (updated 0) s d viewer (λ x. rw (text_eq_refl d)) ⟫ λ _.
        pause-Stands (account W) (quiet W) _ _ ⟫ λ _.
        stop-Stands (account W) (quiet W) _ _ (Crash W) ⟫ λ _.
        updates-Stands delfosnar_update_room 0 s d refl ⟫ λ _.
        Triple-read _ (λ s. s.own.delfosnar_guid) d (λ s h. ap (λ w. w.lead) h.kept)
          (asked-Stands (account W) (Crash W) (quiet W) (stage (updated all_updates) s d) _
              (λ _. stage ended s d) (stage halted s d) (close d a.agent_guid s)
              (λ x. rw (text_eq_refl d, text_eq_refl s)) (λ _. Fits-lead _) (Fits-lead _)
            ⟫ λ _.
                logout-Stands (account W) (Crash W) (quiet W) cleared _ (words_of [] [] [])
                  a.agent_guid s (stage ended s d) (stage seeded [] []) (stage closed [] [])
                  (λ own e. refl) (λ x. rw (text_eq_refl s)) (Fits-nothing _) (Fits-nothing _)
                  (Fits-nothing _))

  pub body-Stands :
      (a : Host) → Triple (Here W seeded [] []) (body W a) (λ _. Here W seeded [] []) (Left W)
  unfolding body
  body-Stands a = desktop-Stands W a ⟫ λ s. hold-Stands a s
