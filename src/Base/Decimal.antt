-- ===== src/Base/Decimal.antt =====
-- Decimal text, as `%d` and `strconv.Itoa` print a number that is not negative.
use Prim.Native.Nat.{ℕ, zero, suc, ◌+◌, ◌/◌, ◌%◌, ◌^◌, ◌≤◌, ◌<◌}
use mathlib.Core.Path.{◌≡◌, refl}
use mathlib.Core.Logic.{inl, inr}
use mathlib.Core.List.{[], ◌∷◌, ◌++◌}
use native.Mathlib.Omega.{arith}
use native.Mathlib.Nat.{pow-suc}
use software_factory_templat.Base.Tests.{ltb, if◌then◌else◌, Bool-cases}
use software_factory_templat.Base.Lists.{length, length-append}
use software_factory_templat.Base.Text.{Bytes, codes}

-- One round for each digit, at most as many as the number.
unfoldable pub decimal_digits : ℕ → ℕ → Bytes
decimal_digits zero n = (b'0' + n % 10) ∷ []
decimal_digits (suc fuel) n =
    let rest = decimal_digits fuel (n / 10) ++ (b'0' + n % 10) ∷ [] in
    if ltb n 10 then (b'0' + n % 10) ∷ [] else rest

unfoldable pub decimal : ℕ → Bytes
unfolding decimal_digits
decimal n = decimal_digits n n

decimal_test : decimal 4096 ≡ codes "4096"
unfolding decimal
decimal_test = refl

length-decimal_digits : (k fuel n : ℕ) → n < 10 ^ suc k → length (decimal_digits fuel n) ≤ suc k
unfolding decimal_digits
length-decimal_digits k zero n h = omega arith
length-decimal_digits zero (suc fuel) n h = ground arith
length-decimal_digits (suc k) (suc fuel) n h = elim (Bool-cases (ltb n 10)) [
  | inl e ↦ rw e (omega arith)
  | inr e ↦ rw e (
      omega (
        arith,
        length-append (decimal_digits fuel (n / 10)) ((b'0' + n % 10) ∷ []),
        length-decimal_digits k fuel (n / 10) (next_digit k n h),
      ))
]
  where
    next_digit : (k n : ℕ) → n < 10 ^ suc (suc k) → n / 10 < 10 ^ suc k
    next_digit k n h = omega (arith, pow-suc 10 (suc k))

-- A number below a power of ten has no more digits than the power.
pub length-decimal : (k n : ℕ) → n < 10 ^ suc k → length (decimal n) ≤ suc k
unfolding decimal
length-decimal k n h = length-decimal_digits k n n h
