-- ===== src/Loop/Turn.antt =====
-- Steps of the controller: each goes on with a value, or the run has ended.
use software_factory_templat.Base.{ℕ, suc}
use software_factory_templat.Loop.State.{State, Row}

-- A run ends with a result and its exit code, or with an error.
pub data End : Type 0 where
  finished : (exit : ℕ) → End
  errored : End

pub data Turn (A : Type 0) : Type 0 where
  go : A → State → Turn A
  ended : End → State → Turn A

abbrev pub M : Type 0 → Type 0
M A = State → Turn A

abbrev pub bind : {A B : Type 0} → Turn A → (A → M B) → Turn B
bind (go a s) f = f a s
bind (ended e s) f = ended e s

infixl 5 ◌>>=◌ ◌>>◌
abbrev pub ◌>>=◌ : {A B : Type 0} → M A → (A → M B) → M B
◌>>=◌ m f s = bind (m s) f

abbrev pub ◌>>◌ : {B : Type 0} → M (Unit {0}) → M B → M B
◌>>◌ m k s = bind (m s) (λ u. k)

abbrev pub pure : {A : Type 0} → A → M A
pure a s = go a s

abbrev pub modify : (Row → Row) → M (Unit {0})
modify f s = go tt (record s { row = f s.row })

abbrev pub gets : {A : Type 0} → (State → A) → M A
gets f s = go (f s) s

-- A question to the environment.
abbrev pub ask : {A : Type 0} → (ℕ → A) → M A
ask answer s = go (answer s.tick) (record s { tick = suc s.tick })

abbrev pub stop : {A : Type 0} → End → M A
stop e s = ended e s
