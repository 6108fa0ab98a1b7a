-- ===== src/Twilio/Laws.antt =====
-- What an event does to the flag on which `sequence` waits.
use delfos.Prelude.{
  ◌≡◌, refl, sym, ap, ◌∙◌, Bool, true, false, ◌||◌, Option, none, some, Text, codes, text_eq,
  if◌then◌else◌,
}
use delfos.World.{World, TwilioEventType, call, bridge, hangup, other}
use delfos.Monad.{M, Res, val, exit, continue, threw, pure, gets, modify, ◌>>=◌}
use delfos.Monad.Triple.{
  Triple, Triple-pure, Triple-leave, Triple-if, Triple-modify, Post-collapse, ◌⟫◌,
}
use delfos.Twilio.{
  Tracker, contains, or_throw, set_call, set_bridged, user_bridged, agent_bridged, on_call,
  on_bridge, on_event, lead_event,
}

module _ (W : World) where
  -- The flag after an event of each type, from the flag `b` before it.
  abbrev pub Flagged : TwilioEventType → Bool → Tracker W.Call → Type 0
  Flagged call b t = t.call_bridged ≡ b
  Flagged bridge b t = t.call_bridged ≡ (W.is_call_agent_user_bridged t.call || b)
  Flagged hangup b t = t.call_bridged ≡ false
  Flagged other b t = t.call_bridged ≡ b

  module _ (b : Bool) (phone : Text) where
    pub record Keeps (t : Tracker W.Call) : Type 0 where
      pub flag : t.call_bridged ≡ b
      pub same_phone : t.lead_customer_phone ≡ phone

    abbrev pub Kept : {A : Type 0} → M (Tracker W.Call) A → Type 0
    Kept m = Triple Keeps m (λ _. Keeps) (λ _. Keeps)

    pub or_throw-Keeps : (o : Option Text) → Kept (or_throw W o)
    unfolding or_throw
    or_throw-Keeps none = Triple-leave threw (λ t h. h)
    or_throw-Keeps (some x) = Triple-pure x

    pub set_call-Keeps : (f : W.Call → W.Call) → Kept (modify (set_call W f))
    unfolding set_call
    set_call-Keeps f = Triple-modify _ λ t h. record { flag = h.flag; same_phone = h.same_phone }

    on_call-Keeps : (http : W.Http) → Kept (on_call W http)
    unfolding on_call gets
    on_call-Keeps http = reading ⟫ λ p.
        Triple-if (text_eq (W.url_param http (codes "to")) p)
          (λ _. or_throw-Keeps _ ⟫ λ session. set_call-Keeps _) (λ _. Triple-pure tt)
        ⟫ λ _.
            Triple-if (text_eq (W.url_param http (codes "from")) p)
              (λ _. or_throw-Keeps _ ⟫ λ session. set_call-Keeps _) (λ _. Triple-pure tt)
      where
        reading : Kept (gets (λ t. t.lead_customer_phone))
        reading = record { at = λ t h. h }

  -- The channels change neither the flag nor the phone.
  one_of :
      (c d : Bool) (f g : W.Call → W.Call) (t : Tracker W.Call)
      → let t' = if c then set_call W f t else if d then set_call W g t else t in
        (t'.lead_customer_phone ≡ t.lead_customer_phone) × (t'.call_bridged ≡ t.call_bridged)
  unfolding set_call
  one_of true d f g t = (refl, refl)
  one_of false true f g t = (refl, refl)
  one_of false false f g t = (refl, refl)

  raised :
      (b : Bool) (t : Tracker W.Call)
      → W.is_call_agent_user_bridged t.call ≡ b
      → let t' = if b then set_bridged W true t else t in
        (t'.lead_customer_phone ≡ t.lead_customer_phone) × Flagged bridge t.call_bridged t'
  unfolding set_bridged
  raised true t e = (refl, ap (λ x. x || t.call_bridged) (sym e))
  raised false t e = (refl, ap (λ x. x || t.call_bridged) (sym e))

  pub on_bridge_flag :
      (where_user url : Text) (t : Tracker W.Call)
      → let t' = on_bridge W where_user url t in
        (t'.lead_customer_phone ≡ t.lead_customer_phone) × Flagged bridge t.call_bridged t'
  unfolding on_bridge
  on_bridge_flag where_user url t =
      let user = contains where_user (W.twilio_session (W.user_channel t.call)) in
      let agent = contains url (W.twilio_session (W.agent_channel t.call)) in
      let (same_phone, same_flag) = one_of user agent (user_bridged W) (agent_bridged W) t in
      let (phone, flag) = raised _ _ refl in
      (
        phone ∙ same_phone,
        flag
            ∙ ap (λ b. W.is_call_agent_user_bridged (on_bridge W where_user url t).call || b)
                same_flag,
      )

  on_event_flag :
      (e : TwilioEventType) (http : W.Http) (t : Tracker W.Call)
      → let t' = (on_event W e http t).1 in
        (t'.lead_customer_phone ≡ t.lead_customer_phone) × Flagged e t.call_bridged t'
  unfolding on_event set_bridged modify pure
  on_event_flag call http t =
      let kept = Post-collapse (Keeps t.call_bridged t.lead_customer_phone) _ _ (
        (on_call-Keeps t.call_bridged t.lead_customer_phone http).at t
          (record { flag = refl; same_phone = refl })) in
      (kept.same_phone, kept.flag)
  on_event_flag bridge http t = on_bridge_flag _ _ t
  on_event_flag hangup http t = (refl, refl)
  on_event_flag other http t = (refl, refl)

  -- The phone is kept, and the flag is what the type of the event makes of it.
  abbrev pub Follows : TwilioEventType → Tracker W.Call → Tracker W.Call → Type 0
  Follows e t t' = (t'.lead_customer_phone ≡ t.lead_customer_phone) × Flagged e t.call_bridged t'

  -- What holds of a handler's state holds after its `return true`.
  pub answered :
      (P : Tracker W.Call → Type 0) (r : Res (Unit {0})) (t : Tracker W.Call)
      → P t
      → P (continue r (λ _. pure true) t).1
  unfolding pure
  answered P (val a) t h = h
  answered P (exit e) t h = h

  -- Whatever an event says, `twilio_event` keeps the lead's phone. A hangup lowers the flag on which
  -- `sequence` waits; a bridge event raises it if both channels of the call are bridged then, and
  -- lowers it never; the other events, a call that throws among them, leave it as it was.
  pub lead_event_flag :
      (http : W.Http) (t : Tracker W.Call)
      → Follows (W.twilio_event_type http) t (lead_event W http t).1
  unfolding lead_event ◌>>=◌
  lead_event_flag http t =
      let e = W.twilio_event_type http in
      answered (Follows e t) (on_event W e http t).0 _ (on_event_flag e http t)
