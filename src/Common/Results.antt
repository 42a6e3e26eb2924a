-- ===== src/Common/Results.antt =====
-- What a function that may raise returns: the exception, or the value.
use mathlib.Core.Path.{◌≡◌, refl}
use mathlib.Core.Logic.{◌⊎◌, inl, inr}

pub data Result (E A : Type 0) : Type 0 where
  raised : E → Result E A
  done : A → Result E A

-- The state after a request: a request that raises is rolled back.
abbrev pub committed : {E A : Type 0} → A → Result E A → A
committed before (raised _) = before
committed before (done after) = after

-- Running the rest after a value; an exception goes through.
abbrev pub and_then : {E A B : Type 0} → Result E A → (A → Result E B) → Result E B
and_then (raised e) f = raised e
and_then (done a) f = f a

pub Result-cases :
    {E A : Type 0} (r : Result E A) → ((e : E) × (r ≡ raised e)) ⊎ ((a : A) × (r ≡ done a))
Result-cases (raised e) = inl (e, refl)
Result-cases (done a) = inr (a, refl)
