-- ===== src/Budget/Numbers.antt =====
-- numbers.go: the integers and amounts of the ledger. `Arithmetic` stands for math/big and strconv.
use software_factory_templat.Base.{
  ℕ, ◌^◌, Bool, false, not, ◌&&◌, ◌||◌, Option, none, some, Bytes, codes, bytes_eq, contains_byte,
  leb, ◌==◌, if◌then◌else◌,
}
use software_factory_templat.Budget.Json.{Json, null, boolean, number, text, array, object}

-- A `*big.Int`
pub record Integer : Type 0 where
  pub negative : Bool
  pub magnitude : ℕ

pub record Arithmetic : Type 0 where
  -- `SetString(s, 10)`
  pub parse : Bytes → Option Integer
  -- `finite(i.Float64())`
  pub finite : Integer → Bool
  -- `n.Float64()` without an error and finite: whether it is below zero.
  pub is_negative : Bytes → Option Bool

unfoldable pub integer_syntax : Bytes → Bool
integer_syntax n =
    not (contains_byte b'.' n || contains_byte b'e' n || contains_byte b'E' n)
    && not (bytes_eq n (codes "NaN"))
    && not (bytes_eq n (codes "Infinity"))
    && not (bytes_eq n (codes "-Infinity"))

module _ (a : Arithmetic) where
  unfoldable pub exact_integer : Json → Option Integer
  unfolding integer_syntax
  exact_integer (number n) = if integer_syntax n then a.parse n else none
  exact_integer null = none
  exact_integer (boolean b) = none
  exact_integer (text s) = none
  exact_integer (array xs) = none
  exact_integer (object m) = none

  abbrev pub is_checked : (zero : Bool) → Option Integer → Bool
  is_checked zero none = false
  is_checked zero (some i) =
      not (i.negative && not (i.magnitude == 0)) && (zero || not (i.magnitude == 0)) && a.finite i

  -- The second result of `checkedInteger`.
  unfoldable pub checked_integer : Json → (zero : Bool) → Bool
  unfolding exact_integer
  checked_integer v zero = is_checked zero (exact_integer v)

  abbrev pub is_amount : Option Bool → Bool
  is_amount none = false
  is_amount (some negative) = not negative

  -- `f, ok := numericFloat(v)` with `ok && f >= 0`
  unfoldable pub valid_amount : Json → Bool
  valid_amount (number n) = is_amount (a.is_negative n)
  valid_amount null = false
  valid_amount (boolean b) = false
  valid_amount (text s) = false
  valid_amount (array xs) = false
  valid_amount (object m) = false

  -- `i.IsInt64()` and `i.Int64()`, for an integer that is not negative.
  abbrev pub native : Option Integer → Option ℕ
  native none = none
  native (some i) =
      if (i.negative && not (i.magnitude == 0)) || leb (2 ^ 63) i.magnitude
      then none
      else some i.magnitude
