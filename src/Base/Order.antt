-- ===== src/Base/Order.antt =====
-- `sort.Strings`: the order of byte strings, and a sort of pairs by their keys.
use mathlib.Core.Bool.{Bool, true, false}
use mathlib.Core.List.{List, [], ◌∷◌}
use software_factory_templat.Base.Tests.{◌==◌, ltb, if◌then◌else◌}
use software_factory_templat.Base.Text.{Bytes}

-- `a <= b` on strings
unfoldable pub bytes_le : Bytes → Bytes → Bool
bytes_le [] b = true
bytes_le (x ∷ xs) [] = false
bytes_le (x ∷ xs) (y ∷ ys) =
    let rest = bytes_le xs ys in if ltb x y then true else if x == y then rest else false

module _ {ℓ} {V : Type ℓ} where
  unfoldable pub insert_by_key : Bytes × V → List (Bytes × V) → List (Bytes × V)
  unfolding bytes_le
  insert_by_key p [] = p ∷ []
  insert_by_key p (q ∷ qs) =
      let rest = q ∷ insert_by_key p qs in if bytes_le p.0 q.0 then p ∷ q ∷ qs else rest

  unfoldable pub sort_by_key : List (Bytes × V) → List (Bytes × V)
  unfolding insert_by_key
  sort_by_key [] = []
  sort_by_key (p ∷ ps) = insert_by_key p (sort_by_key ps)
