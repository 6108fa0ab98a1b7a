-- ===== src/Monad/Triple.antt =====
-- Triples: from a state that meets `P`, what the code ends with. One rule for each way to build code.
use delfos.Prelude.{◌≡◌, refl, sym, subst, Bool, true, false, not, if◌then◌else◌}
use delfos.Monad.{
  Exit, Res, val, exit, M, pure, leave, gets, modify, ◌>>=◌, leave_if, contained, continue,
}

abbrev pub Post : {S A : Type 0} → (A → S → Type 0) → (Exit → S → Type 0) → Res A → S → Type 0
Post Q X (val a) s = Q a s
Post Q X (exit e) s = X e s

-- From `P`, the code `m` returns with `Q`, or is left with `X`.
pub record Triple {S A : Type 0} (P : S → Type 0) (m : M S A) (Q : A → S → Type 0)
    (X : Exit → S → Type 0) : Type 0 where
  pub at : (s : S) → P s → Post Q X (m s).0 (m s).1

module _ {S A : Type 0} {X : Exit → S → Type 0} where
  pub Triple-pure : {Q : A → S → Type 0} (a : A) → Triple (Q a) (pure a) Q X
  unfolding pure
  Triple-pure a = record { at = λ s h. h }

  pub Triple-leave :
      {P : S → Type 0} {Q : A → S → Type 0} (e : Exit)
      → ((s : S) → P s → X e s)
      → Triple P (leave {A = A} e) Q X
  unfolding leave
  Triple-leave e k = record { at = k }

  pub Triple-gets : {P : S → Type 0} (f : S → A) → Triple P (gets f) (λ a s. P s × (a ≡ f s)) X
  unfolding gets
  Triple-gets f = record { at = λ s h. (h, refl) }

  pub Triple-pre :
      {P P' : S → Type 0} {m : M S A} {Q : A → S → Type 0}
      → ((s : S) → P' s → P s)
      → Triple P m Q X
      → Triple P' m Q X
  Triple-pre k t = record { at = λ s h. t.at s (k s h) }

  pub Triple-if :
      {P : S → Type 0} {Q : A → S → Type 0} (b : Bool) {m n : M S A}
      → (b ≡ true → Triple P m Q X)
      → (b ≡ false → Triple P n Q X)
      → Triple P (if b then m else n) Q X
  Triple-if true t u = t refl
  Triple-if false t u = u refl

  pub Triple-elim :
      {P : S → Type 0} {Q : A → S → Type 0} (b : Bool) {m n : M S A}
      → Triple P m Q X
      → Triple P n Q X
      → Triple P (elim b [ true ↦ m | false ↦ n ]) Q X
  Triple-elim true t u = t
  Triple-elim false t u = u

  -- The same, with what is known of the test.
  pub Triple-branch :
      {P : S → Type 0} {Q : A → S → Type 0} (b : Bool) {m n : M S A}
      → (b ≡ true → Triple P m Q X)
      → (b ≡ false → Triple P n Q X)
      → Triple P (elim b [ true ↦ m | false ↦ n ]) Q X
  Triple-branch true t u = t refl
  Triple-branch false t u = u refl

module _ {S A B : Type 0} {X : Exit → S → Type 0} where
  Post-continue :
      {R : A → S → Type 0} {Q : B → S → Type 0} {f : A → M S B} (r : Res A) (s : S)
      → ((a : A) → Triple (R a) (f a) Q X)
      → Post R X r s
      → Post Q X (continue r f s).0 (continue r f s).1
  Post-continue (val a) s t h = (t a).at s h
  Post-continue (exit e) s t h = h

  infixl 5 ◌⟫◌
  pub ◌⟫◌ :
      {P : S → Type 0} {R : A → S → Type 0} {Q : B → S → Type 0} {m : M S A} {f : A → M S B}
      → Triple P m R X
      → ((a : A) → Triple (R a) (f a) Q X)
      → Triple P (m >>= f) Q X
  unfolding ◌>>=◌
  ◌⟫◌ {m} t k = record { at = λ s h. Post-continue (m s).0 (m s).1 k (t.at s h) }

  -- A field whose value is known is read.
  pub Triple-read :
      {P : S → Type 0} {Q : B → S → Type 0} (m : A → M S B) (f : S → A) (v : A)
      → ((s : S) → P s → f s ≡ v)
      → Triple P (m v) Q X
      → Triple P (gets f >>= m) Q X
  unfolding ◌>>=◌ gets
  Triple-read {Q} m f v k t = record {
    at = λ s h. subst (λ a. Post Q X (m a s).0 (m a s).1) (sym (k s h)) (t.at s h);
  }

module _ {S A : Type 0} where
  -- What holds of every state that meets `P`, however the code is left.
  pub Post-same : (P : S → Type 0) (r : Res A) (s : S) → P s → Post (λ _. P) (λ _. P) r s
  Post-same P (val a) s h = h
  Post-same P (exit e) s h = h

  -- The other way round.
  pub Post-collapse : (P : S → Type 0) (r : Res A) (s : S) → Post (λ _. P) (λ _. P) r s → P s
  Post-collapse P (val a) s h = h
  Post-collapse P (exit e) s h = h

  -- Of code about which nothing is said.
  pub Triple-any : (m : M S A) → Triple (λ _. Unit {0}) m (λ _ _. Unit {0}) (λ _ _. Unit {0})
  Triple-any m = record { at = λ s h. Post-same (λ _. Unit {0}) (m s).0 (m s).1 tt }

  Post-weaken :
      {Q Q' : A → S → Type 0} {X X' : Exit → S → Type 0} (r : Res A) (s : S)
      → ((a : A) (s : S) → Q a s → Q' a s)
      → ((e : Exit) (s : S) → X e s → X' e s)
      → Post Q X r s
      → Post Q' X' r s
  Post-weaken (val a) s k l h = k a s h
  Post-weaken (exit e) s k l h = l e s h

  pub Triple-weaken :
      {P : S → Type 0} {Q Q' : A → S → Type 0} {X X' : Exit → S → Type 0} {m : M S A}
      → ((a : A) (s : S) → Q a s → Q' a s)
      → ((e : Exit) (s : S) → X e s → X' e s)
      → Triple P m Q X
      → Triple P m Q' X'
  Triple-weaken {m} k l t = record { at = λ s h. Post-weaken (m s).0 (m s).1 k l (t.at s h) }

module _ {S : Type 0} {X : Exit → S → Type 0} where
  pub Triple-modify :
      {P Q : S → Type 0} (f : S → S) → ((s : S) → P s → Q (f s)) → Triple P (modify f) (λ _. Q) X
  unfolding modify
  Triple-modify f k = record { at = k }

  -- `if (not b) e;`
  pub Triple-leave_unless :
      (P : Bool → S → Type 0) (b : Bool) (e : Exit)
      → ((s : S) → P false s → X e s)
      → Triple (P b) (leave_if (not b) e) (λ _. P true) X
  Triple-leave_unless P true e out = Triple-pure tt
  Triple-leave_unless P false e out = Triple-leave e out

  pub Triple-contained :
      {P : S → Type 0} {m : M S (Unit {0})}
      → Triple P m (λ _. P) (λ _. P)
      → Triple P (contained m) (λ _. P) X
  unfolding contained
  Triple-contained {P} {m} t = record { at = λ s h. Post-collapse P (m s).0 (m s).1 (t.at s h) }

module _ {S A : Type 0} {P : S → Type 0} {m : M S A} {Q : A → S → Type 0}
    {X : Exit → S → Type 0} where
  -- A fact that does not depend on the state.
  pub Triple-fact : {F : Type 0} → (F → Triple P m Q X) → Triple (λ s. P s × F) m Q X
  Triple-fact k = record { at = λ s (h, f). (k f).at s h }

module _ {S A : Type 0} {m : M S A} {Q : A → S → Type 0} {X : Exit → S → Type 0} where
  -- Something that meets the state.
  pub Triple-some :
      {F : Type 0} {P : F → S → Type 0}
      → ((f : F) → Triple (P f) m Q X)
      → Triple (λ s. (f : F) × P f s) m Q X
  Triple-some k = record { at = λ s (f, h). (k f).at s h }
