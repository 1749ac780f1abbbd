-- ===== src/Base/Maybe.antt =====
-- The chaining of operations that may fail.
use mathlib.Core.Option.{Option, none, some}

module _ {A B : Type 0} where
  infixl 5 ◌>>=◌
  abbrev pub ◌>>=◌ : Option A → (A → Option B) → Option B
  none >>= f = none
  some a >>= f = f a
