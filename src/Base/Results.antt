-- ===== src/Base/Results.antt =====
-- A Go function that returns an error beside its value: the error is its message.
use Prim.Native.String.{String}
use mathlib.Core.Path.{◌≡◌, refl}
use mathlib.Core.Bool.{Bool, true, false}

pub data Result {ℓ} (A : Type ℓ) : Type ℓ where
  err : (message : String) → Result A
  ok : (value : A) → Result A

-- `if bad { return errors.New(e) }`
abbrev pub refuse : Bool → String → Result (Unit {0})
refuse false message = ok tt
refuse true message = err message

infixl 5 ◌>>=◌
abbrev pub ◌>>=◌ {ℓ κ} : {A : Type ℓ} {B : Type κ} → Result A → (A → Result B) → Result B
err message >>= next = err message
ok value >>= next = next value

infixl 5 ◌>>◌
abbrev pub ◌>>◌ {ℓ} : {A : Type ℓ} → Result (Unit {0}) → Result A → Result A
checked >> next = checked >>= λ _. next

-- A successful bind has a successful first step.
pub >>=-eq-ok {κ ℓ} :
    {X : Type κ} {Y : Type ℓ} (first : Result X) (next : X → Result Y) {y : Y}
    → (first >>= next) ≡ ok y
    → (x : X) × (first ≡ ok x) × (next x ≡ ok y)
>>=-eq-ok (err message) next succeeds = cc
>>=-eq-ok (ok x) next succeeds = (x, refl, succeeds)

-- The values of equal successes.
pub eq_of_ok {κ} : {X : Type κ} {x y : X} → ok x ≡ ok y → x ≡ y
eq_of_ok same = cc
