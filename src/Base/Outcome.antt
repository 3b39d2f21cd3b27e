-- ===== src/Base/Outcome.antt =====
-- How a Go call ends: with a value, with a returned error, or with a run-time panic.
use mathlib.Core.Option.{Option, none, some}

pub data Run (E : Type 0) (A : Type 0) : Type 0 where
  ok : A → Run E A
  err : E → Run E A
  panic : Run E A

infixl 5 ◌>>=◌
abbrev pub ◌>>=◌ : {E A B : Type 0} → Run E A → (A → Run E B) → Run E B
ok a >>= f = f a
err e >>= f = err e
panic >>= f = panic

-- An index or slice out of range panics.
abbrev pub or_panic : {E A : Type 0} → Option A → Run E A
or_panic (some a) = ok a
or_panic none = panic
