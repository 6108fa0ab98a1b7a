-- ===== src/Waits/Desks.antt =====
-- The ways in which the requests of an agent's desktop are left.
use delfos.Prelude.{List, [], ◌∷◌, Text, is_empty}
use delfos.World.{World, Turn}
use delfos.World.Requests.{AgentStatus}
use delfos.Monad.{broke, M, modify}
use delfos.Monad.Triple.{Triple-pure, Triple-elim, ◌⟫◌}
use delfos.Workflow.State.{System}
use delfos.Workflow.Calls.{generate_random_phone}
use delfos.Twilio.{Tracker}
use delfos.Desktop
use delfos.Waits.Ends.{Ended, done}
use delfos.Waits.Calm.{
  Calm, ask-Any, gets-Any, modify-Any, leave_if-Any, schedule-Any, pause-Any, traced-Any, stop-Any,
  asked-Any,
}

module _ {W : World} {X : Type 0} where
  pub phone-Ended : Calm {S = System W X} Ended (generate_random_phone W)
  unfolding generate_random_phone
  phone-Ended = ask-Any W.draw_phone ⟫ λ drawn. Triple-pure _

  pub tracking-Ended :
      (tracker : X → Tracker W.Call) (set_tracker : Tracker W.Call → X → X)
      (f : Tracker W.Call → Tracker W.Call)
      → Calm Ended (Desktop.tracking W tracker set_tracker (modify f))
  unfolding Desktop.tracking modify
  tracking-Ended tracker set_tracker f = record { at = λ s h. tt }

  module _ (turn : Turn W.Http → M (System W X) (Unit {0})) where
    pub stop-Ended : Calm Ended (Desktop.break_if_stopped W turn)
    stop-Ended = stop-Any turn (λ s. tt)

    pub pause-Ended : Calm Ended (Desktop.sleep_delta W turn)
    pause-Ended = pause-Any turn

    pub getvateams-Ended :
        (agent : Text) (cs : List Text) → Calm Ended (Desktop.getvateams W turn agent cs)
    unfolding Desktop.getvateams
    getvateams-Ended agent [] = done
    getvateams-Ended agent (c ∷ cs) =
        traced-Any turn _ _ ⟫ λ answer. Triple-elim answer.0 (getvateams-Ended agent cs) done

    pub login-Ended :
        (set_session : Text → X → X) (session : X → Text) (agent : Text)
        → Calm Ended (Desktop.login W turn set_session session agent)
    unfolding Desktop.login
    login-Ended set_session session agent = asked-Any turn (λ s. tt) _ _ ⟫ λ json.
        leave_if-Any _ broke (λ s. tt) ⟫ λ _.
        schedule-Any turn ⟫ λ _. modify-Any _ ⟫ λ _. gets-Any (λ s. session s.own)

    pub change_status-Ended :
        (status : AgentStatus) (agent session : Text)
        → Calm Ended (Desktop.change_status W turn status agent session)
    unfolding Desktop.change_status
    change_status-Ended status agent session = asked-Any turn (λ s. tt) _ _ ⟫ λ _. done

    pub check_vateams-Ended :
        (agent session : Text) (teams : List Text)
        → Calm Ended (Desktop.check_vateams W turn agent session teams)
    unfolding Desktop.check_vateams
    check_vateams-Ended agent session [] = done
    check_vateams-Ended agent session (team ∷ teams) =
        asked-Any turn (λ s. tt) _ _ ⟫ λ _. check_vateams-Ended agent session teams

    pub get_availability-Ended :
        (branch : Text) → Calm Ended (Desktop.get_availability W turn branch)
    unfolding Desktop.get_availability
    get_availability-Ended branch = asked-Any turn (λ s. tt) _ _ ⟫ λ _. done

    pub open_session-Ended :
        (phone session : X → Text) (agent : Text)
        → Calm Ended (Desktop.open_session W turn phone session agent)
    unfolding Desktop.open_session
    open_session-Ended phone session agent = gets-Any (λ s. phone s.own) ⟫ λ _.
        gets-Any (λ s. session s.own) ⟫ λ _. asked-Any turn (λ s. tt) _ _

    pub capture_lead-Ended :
        (store : X → X) (lead : X → Text) → Calm Ended (Desktop.capture_lead W turn store lead)
    unfolding Desktop.capture_lead
    capture_lead-Ended store lead = schedule-Any turn ⟫ λ _. modify-Any _ ⟫ λ _.
        gets-Any (λ s. lead s.own) ⟫ λ guid.
        leave_if-Any (is_empty guid) broke (λ s. tt) ⟫ λ _. Triple-pure guid

    pub set_result-Ended :
        (clear : X → X) (lead : Text) → Calm Ended (Desktop.set_result W turn clear lead)
    unfolding Desktop.set_result
    set_result-Ended clear lead = schedule-Any turn ⟫ λ _.
        modify-Any _ ⟫ λ _. modify-Any _ ⟫ λ _. asked-Any turn (λ s. tt) _ _ ⟫ λ _. done

    pub logout-Ended :
        (clear : X → X) (agent session : Text)
        → Calm Ended (Desktop.logout W turn clear agent session)
    unfolding Desktop.logout
    logout-Ended clear agent session =
        schedule-Any turn ⟫ λ _. modify-Any _ ⟫ λ _. asked-Any turn (λ s. tt) _ _ ⟫ λ _. done
