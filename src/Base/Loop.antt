-- ===== src/Base/Loop.antt =====
-- Loops that may panic: a fold over the indices of the rounds.
use Prim.Native.Nat.{ℕ}
use mathlib.Core.Option.{Option, none, some}
use mathlib.Core.List.{List, [], ◌∷◌}

infixl 5 ◌>>=◌
abbrev pub ◌>>=◌ {ℓ κ} : {A : Type ℓ} {B : Type κ} → Option A → (A → Option B) → Option B
some a >>= f = f a
none >>= f = none

-- `for _, j := range js { s = step(j, s) }`; `none` is a panic.
abbrev pub for_each {ℓ} : {S : Type ℓ} → (ℕ → S → Option S) → List ℕ → S → Option S
for_each step [] s = some s
for_each step (j ∷ js) s = step j s >>= for_each step js
