-- ===== src/Cmn/State.antt =====
-- The fields of `CMNWorkflow`.
use delfos.Prelude.{ℕ, false, [], Text, codes}
use delfos.Barrier.{Barrier}
use delfos.Workflow.Construct.{construct}
use delfos.Monad.{M}
use delfos.World.{World}
use delfos.Workflow.State.{System}
use delfos.Twilio.{Tracker}

pub record CmnFields (C : Type 0) : Type 0 where
  pub session_guid : Text
  pub lead_guid : Text
  pub tracker : Tracker C
  pub open tracker use *

module _ (W : World) where
  abbrev pub CmnSystem : Type 0
  CmnSystem = System W (CmnFields W.Call)

  unfoldable pub set_session : Text → CmnSystem → CmnSystem
  set_session guid s = record s { own = record s.own { session_guid = guid } }

  unfoldable pub set_lead : Text → CmnSystem → CmnSystem
  set_lead guid s = record s { own = record s.own { lead_guid = guid } }

  -- Code over the call's fields alone.
  unfoldable pub tracking : {A : Type 0} → M (Tracker W.Call) A → M CmnSystem A
  tracking m s =
      let (r, t) = m s.own.tracker in (r, record s { own = record s.own { tracker = t } })

  -- The constructor.
  unfoldable pub new_workflow : ℕ → Barrier → W.State → CmnSystem
  unfolding construct
  new_workflow agent_position = construct W (codes "cmn") agent_position (record {
    session_guid = [];
    lead_guid = [];
    tracker = record { lead_customer_phone = []; call = W.new_call; call_bridged = false };
  })
