-- ===== src/Effects.antt =====
-- The code of zops.c as commands over `Machine`: a command ends with a value and the new state, or
-- stops the program for a reason. The library of errors, the chaining, and loops with fuel.
use zmachine.Base.{ℕ, zero, suc, ◌+◌, Bool, true, false, Option, none, some, List}
use zmachine.Base.Int.{ℤ, pos, negsuc}
use zmachine.Machine.{Machine}

pub data Stop : Type 0 where
  -- undefined behaviour of C: an access out of range, a division by zero, a bad shift
  undefined : Stop
  -- `exit(1)` of `illegalInstruction` and `haltInstruction`, `exit(0)` of `quit`
  illegal_instruction : Stop
  halt_instruction : Stop
  quit : Stop
  -- no answer of the environment is left
  waiting : Stop
  -- a loop was given too little fuel
  out_of_fuel : Stop

pub data Run (A : Type 0) : Type 0 where
  ok : A → Machine → Run A
  stopped : Stop → Machine → Run A

abbrev pub M : Type 0 → Type 0
M A = Machine → Run A

abbrev pub Done : Type 0
Done = M (Unit {0})

module _ {A : Type 0} where
  abbrev pub pure : A → M A
  pure a = ok a

  abbrev pub stop : Stop → M A
  stop r = stopped r

  -- What C reads through a pointer, or `undefined`.
  abbrev pub valid : Option A → M A
  valid none = stopped undefined
  valid (some a) = ok a

  -- An expression over the state.
  abbrev pub get : (Machine → A) → M A
  get f s = ok (f s) s

module _ {A B : Type 0} where
  abbrev pub and_then : Run A → (A → M B) → Run B
  and_then (ok a s) k = k a s
  and_then (stopped r s) k = stopped r s

  infixl 5 ◌>>=◌ ◌>>◌
  abbrev pub ◌>>=◌ : M A → (A → M B) → M B
  m >>= k = λ s. and_then (m s) k

  abbrev pub ◌>>◌ : M A → M B → M B
  m >> n = m >>= λ _. n

-- An assignment to static variables.
abbrev pub modify : (Machine → Machine) → Done
modify f s = ok tt (f s)

abbrev pub skip : Done
skip = ok tt

abbrev pub when : Bool → Done → Done
when true m = m
when false m = skip

-- An `int` that is used as an index or an address.
abbrev pub index : ℤ → M ℕ
index (pos n) = ok n
index (negsuc n) = stopped undefined

-- for (i = start; i < start + n; i++) body(i)
unfoldable pub for_range : ℕ → ℕ → (ℕ → Done) → Done
for_range zero i body = skip
for_range (suc n) i body = body i >> for_range n (i + 1) body

-- for each element of an array or a string
unfoldable pub for_each : {A : Type 0} → List A → (A → Done) → Done
for_each List.[] body = skip
for_each (List.◌∷◌ a l) body = body a >> for_each l body
