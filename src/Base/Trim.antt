-- ===== src/Base/Trim.antt =====
-- Trimming a byte string by a predicate on its bytes.
use Prim.Native.Nat.{ℕ}
use mathlib.Core.Bool.{Bool}
use mathlib.Core.List.{[], ◌∷◌}
use software_factory_templat.Base.Tests.{if◌then◌else◌}
use software_factory_templat.Base.Text.{Bytes}

-- `strings.TrimLeft(s, set)`
abbrev pub trim_left : (ℕ → Bool) → Bytes → Bytes
trim_left p [] = []
trim_left p (x ∷ xs) = if p x then trim_left p xs else x ∷ xs

abbrev push_trimmed : (ℕ → Bool) → ℕ → Bytes → Bytes
push_trimmed p x [] = if p x then [] else x ∷ []
push_trimmed p x (y ∷ ys) = x ∷ y ∷ ys

-- `strings.TrimRight(s, set)`
abbrev pub trim_right : (ℕ → Bool) → Bytes → Bytes
trim_right p [] = []
trim_right p (x ∷ xs) = push_trimmed p x (trim_right p xs)
