-- ===== src/Common/Effect.antt =====
-- Methods that change the server's state. `none` is a memory fault: the process has crashed or
-- written over memory that is not its own, and nothing is said of what follows.
pub mod Keeps
use mathlib.Core.Path.{◌≡◌, refl}
use mathlib.Core.Option.{Option, none, some}

abbrev pub Effect : Type 0 → Type 0 → Type 0
Effect S A = S → Option (A × S)

module _ {S A : Type 0} where
  unfoldable pub pure : A → Effect S A
  pure a s = some (a, s)

  -- The value of a computation that may fault.
  lift_at : Option A → S → Option (A × S)
  lift_at none s = none
  lift_at (some a) s = some (a, s)

  unfoldable pub lift : Option A → Effect S A
  unfolding lift_at
  lift r s = lift_at r s

  unfoldable pub gets : (S → A) → Effect S A
  gets f s = some (f s, s)

unfoldable pub update : {S : Type 0} → (S → S) → Effect S (Unit {0})
update f s = some (tt, f s)

module _ {S A B : Type 0} where
  continue : Option (A × S) → (A → Effect S B) → Option (B × S)
  continue none f = none
  continue (some (a, s)) f = f a s

  -- Opening this opens `pure`, `lift`, `gets` and `update` too.
  infixl 10 ◌>>=◌ ◌>>◌
  unfoldable pub ◌>>=◌ : Effect S A → (A → Effect S B) → Effect S B
  unfolding continue pure lift gets update
  ◌>>=◌ m f s = continue (m s) f

  abbrev pub ◌>>◌ : Effect S A → Effect S B → Effect S B
  m >> n = m >>= λ _. n
