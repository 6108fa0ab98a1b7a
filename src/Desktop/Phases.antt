-- ===== src/Desktop/Phases.antt =====
-- What a protocol of an agent's desktop knows: a stage, and the guids that the answers have given.
use delfos.Prelude.{
  ◌≡◌, refl, ◌⊎◌, inl, inr, Bool, true, false, not, ◌&&◌, [], ◌∷◌, Text, text_eq, text_eq_refl,
  is_empty,
}
use delfos.World.Requests.{Request, alive, alive_lead, read_session, read_session_user, user}

-- `third` is the guid that only one of the workflows has.
pub record Phase (Stage : Type 0) : Type 0 where
  pub stage : Stage
  pub session : Text
  pub lead : Text
  pub third : Text

abbrev pub phase_at : {Stage : Type 0} → Stage → Text → Text → Text → Phase Stage
phase_at stage session lead third = record {
  stage = stage;
  session = session;
  lead = lead;
  third = third;
}

-- What the fields that the alive thread reads hold.
pub record Words : Type 0 where
  pub session : Text
  pub lead : Text
  pub third : Text

abbrev pub words_of : Text → Text → Text → Words
words_of session lead third = record { session = session; lead = lead; third = third }

-- A field is empty, or holds what the phase knows.
pub record Fits {Stage : Type 0} (p : Phase Stage) (v : Words) : Type 0 where
  pub speaks : (v.session ≡ []) ⊎ (p.session ≡ v.session)
  pub leads : (v.lead ≡ []) ⊎ (p.lead ≡ v.lead)
  pub thirds : (v.third ≡ []) ⊎ (p.third ≡ v.third)

module _ {Stage : Type 0} (p : Phase Stage) where
  pub Fits-nothing : Fits p (words_of [] [] [])
  Fits-nothing = record { speaks = inl refl; leads = inl refl; thirds = inl refl }

  pub Fits-session : Fits p (words_of p.session [] [])
  Fits-session = record { speaks = inr refl; leads = inl refl; thirds = inl refl }

  pub Fits-lead : Fits p (words_of p.session p.lead [])
  Fits-lead = record { speaks = inr refl; leads = inr refl; thirds = inl refl }

  pub Fits-third : Fits p (words_of p.session [] p.third)
  Fits-third = record { speaks = inr refl; leads = inl refl; thirds = inr refl }

  pub Fits-all : Fits p (words_of p.session p.lead p.third)
  Fits-all = record { speaks = inr refl; leads = inr refl; thirds = inr refl }

-- `b` is known, or nothing is said of it.
abbrev pub is_known : Text → Text → Bool
is_known a b = not (is_empty b) && text_eq a b

-- What `speak` may ask for a session, a lead and a room.
abbrev pub says : Text → Text → Text → Request → Bool
says s l r (alive a s') = is_known s s'
says s l r (alive_lead a s' l') = is_known s s' && is_known l l'
says s l r (read_session r' user) = is_known r r'
says s l r (read_session_user r' u) = is_known r r'
says s l r _ = false

pub is_known_refl : (a : Text) → is_empty a ≡ false → is_known a a ≡ true
is_known_refl a h = rw (h, text_eq_refl a)

pub is_known-kept : (a b c : Text) → (b ≡ []) ⊎ (a ≡ b) → is_known b c ≡ true → is_known a c ≡ true
unfolding text_eq
is_known-kept a b [] e h = absurd cc
is_known-kept a [] (x ∷ c) e h = cc
is_known-kept a (y ∷ b) (x ∷ c) (inl e) h = absurd cc
is_known-kept a (y ∷ b) (x ∷ c) (inr e) h = rw e h

both : (a b : Bool) → (a && b) ≡ true → (a ≡ true) × (b ≡ true)
both true b h = (refl, h)
both false b h = cc

-- What the fields allow, the phase allows.
pub says-kept :
    (s s0 l l0 r r0 : Text)
    → (s0 ≡ []) ⊎ (s ≡ s0)
    → (l0 ≡ []) ⊎ (l ≡ l0)
    → (r0 ≡ []) ⊎ (r ≡ r0)
    → (q : Request) → says s0 l0 r0 q ≡ true
    → says s l r q ≡ true
says-kept s s0 l l0 r r0 e f g (alive a s') h = is_known-kept s s0 s' e h
says-kept s s0 l l0 r r0 e f g (alive_lead a s' l') h =
    let (h1, h2) = both _ _ h in rw (is_known-kept s s0 s' e h1, is_known-kept l l0 l' f h2)
says-kept s s0 l l0 r r0 e f g (read_session r' user) h = is_known-kept r r0 r' g h
says-kept s s0 l l0 r r0 e f g (read_session_user r' u) h = is_known-kept r r0 r' g h
says-kept s s0 l l0 r r0 e f g _ h = cc

pub says-Fits :
    {Stage : Type 0} {p : Phase Stage} {v : Words}
    → Fits p v
    → (q : Request) → says v.session v.lead v.lead q ≡ true
    → says p.session p.lead p.lead q ≡ true
says-Fits {p} {v} f =
    says-kept p.session v.session p.lead v.lead p.lead v.lead f.speaks f.leads f.leads

pub text_eq_same : {x y : Text} → x ≡ y → text_eq y x ≡ true
text_eq_same {y} e = rw e (text_eq_refl y)
