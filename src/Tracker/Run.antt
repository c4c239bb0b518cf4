-- ===== src/Tracker/Run.antt =====
-- The outcome of a function that runs before the exchange with the peers: a value, the end of the
-- program by exit or by a failed assertion, or an access outside an object or through NULL. The
-- outcome `goes_on` is a loop that does not end within the model's fuel.
use simpletorrent_nju.Base.{ℤ, Option, none, some}

pub data Run (A : Type 0) : Type 0 where
  ok : A → Run A
  exits : ℤ → Run A
  aborts : Run A
  fault : Run A
  goes_on : Run A

abbrev pub pure : {A : Type 0} → A → Run A
pure a = ok a

infixl 5 ◌>>=◌
abbrev pub ◌>>=◌ : {A B : Type 0} → Run A → (A → Run B) → Run B
ok a >>= f = f a
exits z >>= f = exits z
aborts >>= f = aborts
fault >>= f = fault
goes_on >>= f = goes_on

abbrev pub access : {A : Type 0} → Option A → Run A
access none = fault
access (some a) = ok a
