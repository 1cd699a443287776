-- ===== src/Loop/Holds.antt =====
-- What holds after a step of the controller: `Q` where it goes on, `R` where the run has ended.
use software_factory_templat.Base.{Bool, true, false, ◌==◌, if◌then◌else◌, ◌≡◌, refl}
use software_factory_templat.Loop.State.{State}
use software_factory_templat.Loop.Turn.{End, finished, errored, Turn, go, ended, M, bind}

abbrev pub Holds : {A : Type 0} → (A → State → Type 0) → (End → State → Type 0) → Turn A → Type 0
Holds Q R (go a s) = Q a s
Holds Q R (ended e s) = R e s

-- Exit code 0
abbrev pub is_success : End → Bool
is_success (finished n) = n == 0
is_success errored = false

abbrev pub has_ended : {A : Type 0} → Turn A → Bool
has_ended (go a s) = false
has_ended (ended e s) = true

pub bind-Holds :
    {A B : Type 0} (Q : A → State → Type 0) (P : B → State → Type 0) (R : End → State → Type 0)
    (t : Turn A) (f : A → M B)
    → Holds Q R t
    → ((a : A) (s : State) → Q a s → Holds P R (f a s))
    → Holds P R (bind t f)
bind-Holds Q P R (go a s) f h k = k a s h
bind-Holds Q P R (ended e s) f h k = h

module _ {A : Type 0} (Q : A → State → Type 0) (R : End → State → Type 0) where
  pub if-Holds :
      (b : Bool) (m k : M A) (s : State)
      → (b ≡ true → Holds Q R (m s))
      → (b ≡ false → Holds Q R (k s))
      → Holds Q R ((if b then m else k) s)
  if-Holds true m k s h j = h refl
  if-Holds false m k s h j = j refl

  -- The same, where the state is already given.
  pub choose-Holds :
      (b : Bool) (t u : Turn A)
      → (b ≡ true → Holds Q R t)
      → (b ≡ false → Holds Q R u)
      → Holds Q R (if b then t else u)
  choose-Holds true t u h j = h refl
  choose-Holds false t u h j = j refl

  pub Holds-mono :
      (P : A → State → Type 0) (S : End → State → Type 0) (t : Turn A)
      → Holds Q R t
      → ((a : A) (s : State) → Q a s → P a s)
      → ((e : End) (s : State) → R e s → S e s)
      → Holds P S t
  Holds-mono P S (go a s) h p r = p a s h
  Holds-mono P S (ended e s) h p r = r e s h
