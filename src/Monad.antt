-- ===== src/Monad.antt =====
-- The code of a workflow's threads: it changes the workflow's fields and the world, and leaves its
-- statement list by a value, by `break`, by an exception, or, in the model only, out of fuel.
pub mod Triple
use delfos.Prelude.{ℕ, Bool, true, false, List, [], ◌∷◌, if◌then◌else◌}

pub data Exit : Type 0 where
  broke threw hung : Exit

pub data Res {ℓ} (A : Type ℓ) : Type ℓ where
  val : A → Res A
  exit : Exit → Res A

abbrev pub M : Type 0 → Type 0 → Type 0
M S A = S → Res A × S

module _ {S A : Type 0} where
  unfoldable pub pure : A → M S A
  pure a s = (val a, s)

  unfoldable pub leave : Exit → M S A
  leave e s = (exit e, s)

  unfoldable pub gets : (S → A) → M S A
  gets f s = (val (f s), s)

module _ {S : Type 0} where
  unfoldable pub modify : (S → S) → M S (Unit {0})
  modify f s = (val tt, f s)

module _ {S A B : Type 0} where
  abbrev pub continue : Res A → (A → M S B) → M S B
  continue (val a) f s = f a s
  continue (exit e) f s = (exit e, s)

  infixl 5 ◌>>=◌ ◌>>◌
  unfoldable pub ◌>>=◌ : M S A → (A → M S B) → M S B
  unfolding pure leave gets modify
  ◌>>=◌ m f s = let (r, s') = m s in continue r f s'

  abbrev pub ◌>>◌ : M S A → M S B → M S B
  m >> n = m >>= λ _. n

module _ {S : Type 0} where
  -- `if (b) e;` where `e` leaves the statement list
  abbrev pub leave_if : Bool → Exit → M S (Unit {0})
  leave_if b e = if b then leave e else pure tt

  -- `if (b) m;`
  abbrev pub when : Bool → M S (Unit {0}) → M S (Unit {0})
  when b m = if b then m else pure tt

  -- What one thread does when its code has been left is no concern of the others.
  unfoldable pub contained : M S (Unit {0}) → M S (Unit {0})
  contained m s = let (r, s') = m s in (val tt, s')
