-- ===== src/Protocol/Rules.antt =====
-- The rules of the shared operations at a place in a protocol.
use delfos.Prelude.{
  ◌∙◌, ℕ, ◌≡◌, Bool, true, false, not, ◌&&◌, List, some, Text, is_empty, ltb, length,
}
use delfos.World.{World, Turn}
use delfos.World.Requests.{Request, event_of}
use delfos.Monad.{Exit, broke, threw, hung, M, gets, modify}
use delfos.Monad.Triple.{Triple, Triple-pure, Triple-leave, Triple-if}
use delfos.Workflow.State.{System, sequence_thread, Fields, set_fields, set_own, ask}
use delfos.Workflow.Buckets.{get_vateam_guids, at_position}
use delfos.Workflow.Rules.{
  On, KeptBy, Triple-ask, Triple-schedule, Triple-sleep_delta, Triple-sleep_for,
  Triple-break_if_stopped, Triple-traced, Triple-traced_or_break,
}
use delfos.Workflow.Schedule
use delfos.Twilio.{Tracker}
use delfos.Desktop.{tracking}
use delfos.Protocol.{Account, Place, At, advance}

module _ {W : World} {X : Type 0} (a : Account W X) where
  abbrev pub Standing : Place a → a.Words → System W X → Type 0
  Standing p v = On W (At a p v)

  -- The protocol has been kept, wherever it has led.
  pub record Somewhere (s : System W X) : Type 0 where
    pub place : Place a
    pub said : a.Words
    pub stands : Standing place said s

  abbrev pub somewhere : (p : Place a) (v : a.Words) (s : System W X) → Standing p v s → Somewhere s
  somewhere p v s h = record { place = p; said = v; stands = h }

  -- Out of the code before the loop: by an exception.
  abbrev pub Thrown : Exit → System W X → Type 0
  Thrown broke s = ⊥
  Thrown hung s = ⊥
  Thrown threw s = Somewhere s

  -- Out of the loop: by `break`, or in the model for lack of fuel, or by an exception in the phases
  -- that `Crash` names.
  abbrev pub Out : (Place a → Type 0) → Exit → System W X → Type 0
  Out Crash broke s = Somewhere s
  Out Crash hung s = Somewhere s
  Out Crash threw s = (w : Somewhere s) × Crash w.place

  module _ (p : Place a) (v : a.Words) {Y : Exit → System W X → Type 0} where
    pub ask-Stands :
        {A : Type 0} (f : W.State → A × W.State)
        → Triple (Standing p v) (ask W f) (λ _. Standing p v) Y
    ask-Stands f = Triple-ask W (At a p v) f

    pub gets-Stands :
        {A : Type 0} (f : System W X → A) → Triple (Standing p v) (gets f) (λ _. Standing p v) Y
    unfolding gets
    gets-Stands f = record { at = λ s h. h }

    -- A field that the alive thread reads.
    pub word-Stands :
        {A : Type 0} (f : X → A) (x : A)
        → ((own : X) → a.words own ≡ v → f own ≡ x)
        → Triple (Standing p v) (gets (λ s. f s.own)) (λ y s. Standing p v s × (y ≡ x)) Y
    unfolding gets
    word-Stands f x e = record { at = λ s h. (h, e s.own h.kept) }

    -- Changes that no predicate reads.
    pub still-Stands :
        (f : System W X → System W X)
        → ((s : System W X) → Standing p v s → Standing p v (f s))
        → Triple (Standing p v) (modify f) (λ _. Standing p v) Y
    unfolding modify
    still-Stands f k = record { at = k }

    pub fields-Stands :
        (f : Fields W.Json → Fields W.Json)
        → Triple (Standing p v) (modify (set_fields W f)) (λ _. Standing p v) Y
    unfolding modify set_fields
    fields-Stands f = record { at = λ s h. h }

    pub own-Stands :
        (f : X → X) (v' : a.Words)
        → ((own : X) → a.words own ≡ v → a.words (f own) ≡ v')
        → a.Fits p v'
        → Triple (Standing p v) (modify (set_own W f)) (λ _. Standing p v') Y
    unfolding modify set_own
    own-Stands f v' e fits = record {
      at = λ s h. record {
        accepted = h.accepted;
        kept = e s.own h.kept;
        fits = fits;
        traced = h.traced;
      };
    }

    -- Code over the call's fields keeps the others.
    pub tracking-Stands :
        (tracker : X → Tracker W.Call) (set_tracker : Tracker W.Call → X → X)
        → ((t : Tracker W.Call) (own : X) → a.words (set_tracker t own) ≡ a.words own)
        → (f : Tracker W.Call → Tracker W.Call)
        → Triple (Standing p v) (tracking W tracker set_tracker (modify f)) (λ _. Standing p v) Y
    unfolding tracking modify
    tracking-Stands tracker set_tracker keeps f = record {
      at = λ s h. record {
        accepted = h.accepted;
        kept = keeps _ s.own ∙ h.kept;
        fits = h.fits;
        traced = h.traced;
      };
    }

  module _ {turn : Turn W.Http → M (System W X) (Unit {0})}
      (quiet : (p : Place a) (v : a.Words) → KeptBy W turn (At a p v)) (p : Place a)
      (v : a.Words) where
    module _ {Y : Exit → System W X → Type 0} where
      pub lock-Stands : Triple (Standing p v) (Schedule.schedule W turn) (λ _. Standing p v) Y
      lock-Stands = Triple-schedule W (quiet p v)

      pub pause-Stands : Triple (Standing p v) (Schedule.sleep_delta W turn) (λ _. Standing p v) Y
      pause-Stands = Triple-sleep_delta W (quiet p v)

      pub sleep_for-Stands :
          (ms : ℕ) → Triple (Standing p v) (Schedule.sleep_for W turn ms) (λ _. Standing p v) Y
      sleep_for-Stands ms = Triple-sleep_for W (quiet p v) ms

      pub traced-Stands :
          (p' : Bool × W.Json → Place a) (r : Request)
          → ((x : Bool × W.Json) → a.machine.next sequence_thread p r x.0 x.1 ≡ some (p' x))
          → ((x : Bool × W.Json) → a.Fits (p' x) v)
          → Triple (Standing p v) (Schedule.traced W turn (event_of r) r) (λ x. Standing (p' x) v) Y
      traced-Stands p' r moves fits =
          Triple-traced W (quiet p v) (λ x. At a (p' x) v) (λ x. quiet (p' x) v) (event_of r) r
            (advance a sequence_thread r p p' v moves fits)

    module _ (Crash : Place a → Type 0) where
      pub stop-Stands :
          Triple (Standing p v) (Schedule.break_if_stopped W turn) (λ _. Standing p v) (Out Crash)
      stop-Stands = Triple-break_if_stopped W (quiet p v) (somewhere p v)

      pub traced_or_break-Stands :
          (p' : Bool × W.Json → Place a) (r : Request)
          → ((x : Bool × W.Json) → a.machine.next sequence_thread p r x.0 x.1 ≡ some (p' x))
          → ((x : Bool × W.Json) → a.Fits (p' x) v)
          → Triple
              (Standing p v)
              (Schedule.traced_or_break W turn (event_of r) r)
              (λ json. Standing (p' (true, json)) v)
              (Out Crash)
      traced_or_break-Stands p' r moves fits =
          Triple-traced_or_break W (quiet p v) (λ x. At a (p' x) v) (λ x. quiet (p' x) v)
            (event_of r) r (advance a sequence_thread r p p' v moves fits)
            (λ json s h. somewhere (p' (false, json)) v s h)

  module _ (p : Place a) (v : a.Words) where
    pub position-Stands :
        (xs : List Text) (i : ℕ)
        → Triple (Standing p v) (at_position W xs i) (λ _. Standing p v) Thrown
    unfolding at_position
    position-Stands xs i =
        Triple-if (not (is_empty xs) && ltb i (length xs)) (λ _. Triple-pure _)
          (λ _. Triple-leave threw (somewhere p v))

    pub vateams-Stands : Triple (Standing p v) (get_vateam_guids W) (λ _. Standing p v) Thrown
    unfolding get_vateam_guids
    vateams-Stands =
        Triple-if (is_empty W.bucket.relations) (λ _. Triple-leave threw (somewhere p v))
          (λ _. Triple-pure _)
