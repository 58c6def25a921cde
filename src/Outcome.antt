-- ===== src/Outcome.antt =====
-- How a function of the program ends.
use faasafe.Prelude.{Option, none, some}

-- By returning, or by a failed `assert` or an `exit(-1)`. `out_of_fuel` stands for a loop that was
-- not given enough rounds.
pub data Outcome (A : Type 0) : Type 0 where
  returned : A → Outcome A
  aborted : Outcome A
  out_of_fuel : Outcome A

infixl 5 ◌>>=◌
abbrev pub ◌>>=◌ : {A B : Type 0} → Outcome A → (A → Outcome B) → Outcome B
returned a >>= f = f a
aborted >>= f = aborted
out_of_fuel >>= f = out_of_fuel

abbrev pub from_loop : {A : Type 0} → Option A → Outcome A
from_loop none = out_of_fuel
from_loop (some a) = returned a
