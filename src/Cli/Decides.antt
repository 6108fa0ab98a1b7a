-- ===== src/Cli/Decides.antt =====
-- Code of `check_arguments` that decides and sets: the rules.
use delfos.Prelude.{ℕ, ◌≡◌, refl, ap, ◌∙◌, Bool, true, false, not, ◌&&◌, if◌then◌else◌}
use delfos.Monad.{
  Res, val, exit, broke, M, pure, leave, gets, modify, leave_if, continue, ◌>>=◌, ◌>>◌,
}
use delfos.Cli.{Settings}

abbrev pub verdict : Bool → Res (Unit {0})
verdict true = val tt
verdict false = exit broke

pub as_if : (b : Bool) → verdict b ≡ (if b then val tt else exit broke)
as_if true = refl
as_if false = refl

-- The code returns where `c` says so, having changed the settings by `f`; otherwise it is left.
pub record Decides (m : M Settings (Unit {0})) (c : Settings → Bool) (f : Settings → Settings)
    : Type 0 where
  pub says : (s : Settings) → (m s).0 ≡ verdict (c s)
  pub sets : (s : Settings) → c s ≡ true → (m s).1 ≡ f s

pub Decides-modify : (f : Settings → Settings) → Decides (modify f) (λ _. true) f
unfolding modify
Decides-modify f = record { says = λ s. refl; sets = λ s e. refl }

pub Decides-leave_if : (b : Bool) → Decides (leave_if b broke) (λ _. not b) (λ s. s)
unfolding leave pure
Decides-leave_if true = record { says = λ s. refl; sets = λ s e. refl }
Decides-leave_if false = record { says = λ s. refl; sets = λ s e. refl }

pub Decides-read :
    (test : ℕ → Bool) (number : Settings → ℕ)
    → Decides (gets number >>= λ n. leave_if (test n) broke) (λ s. not (test (number s))) (λ s. s)
unfolding ◌>>=◌ gets
Decides-read test number = record {
  says = λ s. (Decides-leave_if (test (number s))).says s;
  sets = λ s e. (Decides-leave_if (test (number s))).sets s e;
}

module _ {m n : M Settings (Unit {0})} {c d : Settings → Bool} {f g : Settings → Settings}
    (first : Decides m c f) (second : Decides n d g) where
  after_says :
      (r : Res (Unit {0})) (s s' : Settings) (b : Bool)
      → r ≡ verdict b
      → (b ≡ true → s' ≡ f s)
      → (continue r (λ _. n) s').0 ≡ verdict (b && d (f s))
  after_says (val a) s s' true e same = ap (λ x. (n x).0) (same refl) ∙ second.says (f s)
  after_says (val a) s s' false e same = cc
  after_says (exit x) s s' true e same = cc
  after_says (exit x) s s' false e same = e

  after_sets :
      (r : Res (Unit {0})) (s s' : Settings) (b : Bool)
      → r ≡ verdict b
      → (b ≡ true → s' ≡ f s)
      → (b && d (f s)) ≡ true
      → (continue r (λ _. n) s').1 ≡ g (f s)
  after_sets (val a) s s' true e same h = ap (λ x. (n x).1) (same refl) ∙ second.sets (f s) h
  after_sets (val a) s s' false e same h = cc
  after_sets (exit x) s s' true e same h = cc
  after_sets (exit x) s s' false e same h = cc

  pub Decides-bind : Decides (m >> n) (λ s. c s && d (f s)) (λ s. g (f s))
  unfolding ◌>>=◌
  Decides-bind = record {
    says = λ s. after_says (m s).0 s (m s).1 (c s) (first.says s) (first.sets s);
    sets = λ s. after_sets (m s).0 s (m s).1 (c s) (first.says s) (first.sets s);
  }

pub Decides-gate :
    (test : ℕ → Bool) (number : Settings → ℕ) {m : M Settings (Unit {0})} {c : Settings → Bool}
    {f : Settings → Settings}
    → Decides m c f
    → Decides
        (gets number >>= λ n. leave_if (test n) broke >> m)
        (λ s. not (test (number s)) && c s)
        f
unfolding ◌>>=◌ gets
Decides-gate test number d = record {
  says = λ s. (Decides-bind (Decides-leave_if (test (number s))) d).says s;
  sets = λ s e. (Decides-bind (Decides-leave_if (test (number s))) d).sets s e;
}

pub Decides-same :
    {m : M Settings (Unit {0})} {c c' : Settings → Bool} {f : Settings → Settings}
    → ((s : Settings) → c s ≡ c' s)
    → Decides m c f
    → Decides m c' f
Decides-same same d = record {
  says = λ s. d.says s ∙ ap verdict (same s);
  sets = λ s e. d.sets s (same s ∙ e);
}

-- The check of a name between two assignments.
pub named :
    (bad : Bool) (f g : Settings → Settings)
    → Decides
        (modify f >> (leave_if bad broke >> modify g))
        (λ s. true && (not bad && true))
        (λ s. g (f s))
named bad f g =
    Decides-bind (Decides-modify f) (Decides-bind (Decides-leave_if bad) (Decides-modify g))
