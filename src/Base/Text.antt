-- ===== src/Base/Text.antt =====
-- Byte strings: a Go `string` or `[]byte` is the list of its bytes.
use Prim.Native.Nat.{ℕ}
use Prim.Native.Char.{code}
use Prim.Native.String.{String}
use mathlib.Core.Path.{◌≡◌, refl}
use mathlib.Core.Logic.{◌↔◌}
use mathlib.Core.Bool.{Bool, true, false, ◌&&◌, ◌||◌}
use mathlib.Core.List.{List, [], ◌∷◌, ◌++◌}
use native.Mathlib.Omega.{arith}
use software_factory_templat.Base.Tests.{◌==◌, if◌then◌else◌}

abbrev pub Bytes : Type 0
Bytes = List ℕ

-- The bytes of an ASCII literal.
abbrev pub codes : String → Bytes
codes String.[] = []
codes (String.◌∷◌ c s) = code c ∷ codes s

-- `a == b` on strings
abbrev pub bytes_eq : Bytes → Bytes → Bool
bytes_eq [] [] = true
bytes_eq [] (y ∷ ys) = false
bytes_eq (x ∷ xs) [] = false
bytes_eq (x ∷ xs) (y ∷ ys) = x == y && bytes_eq xs ys

pub bytes_eq_sound : (a b : Bytes) → bytes_eq a b ≡ true → a ≡ b
bytes_eq_sound [] [] h = refl
bytes_eq_sound [] (y ∷ ys) h = cc
bytes_eq_sound (x ∷ xs) [] h = cc
bytes_eq_sound (x ∷ xs) (y ∷ ys) h = ground (arith, bytes_eq_sound xs ys)

pub bytes_eq_refl : (a : Bytes) → bytes_eq a a ≡ true
bytes_eq_refl [] = refl
bytes_eq_refl (x ∷ xs) = ground (arith, bytes_eq_refl xs)

pub bytes_eq_iff : (a b : Bytes) → (bytes_eq a b ≡ true) ↔ (a ≡ b)
bytes_eq_iff a b = (bytes_eq_sound a b, λ e. subst_eq e)
  where
    subst_eq : a ≡ b → bytes_eq a b ≡ true
    subst_eq e = rw (← e) (bytes_eq_refl a)

-- `strings.IndexByte(s, c) >= 0`
abbrev pub contains_byte : ℕ → Bytes → Bool
contains_byte c [] = false
contains_byte c (x ∷ xs) = x == c || contains_byte c xs

-- `before, after, found := strings.Cut(s, c)` for a separator of one byte, kept as its parts.
abbrev pub before : ℕ → Bytes → Bytes
before c [] = []
before c (x ∷ xs) = if x == c then [] else x ∷ before c xs

abbrev pub after : ℕ → Bytes → Bytes
after c [] = []
after c (x ∷ xs) = if x == c then xs else after c xs

-- A found separator splits the text in two.
pub before-after : (c : ℕ) (s : Bytes) → contains_byte c s ≡ true → before c s ++ c ∷ after c s ≡ s
before-after c [] h = cc
before-after c (x ∷ xs) h = ground (arith, before-after c xs)

pub before_free : (c : ℕ) (s : Bytes) → contains_byte c s ≡ false → before c s ≡ s
before_free c [] h = refl
before_free c (x ∷ xs) h = ground (arith, before_free c xs)

-- No separator lies before the first one.
pub contains_byte-before : (c : ℕ) (s : Bytes) → contains_byte c (before c s) ≡ false
contains_byte-before c [] = refl
contains_byte-before c (x ∷ xs) = ground (arith, contains_byte-before c xs)

-- `strings.HasPrefix(s, p)`
abbrev pub has_prefix : Bytes → Bytes → Bool
has_prefix s [] = true
has_prefix [] (p ∷ ps) = false
has_prefix (x ∷ xs) (p ∷ ps) = x == p && has_prefix xs ps
