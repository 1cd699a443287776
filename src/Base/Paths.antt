-- ===== src/Base/Paths.antt =====
-- `path.Base`, `path.Ext` and the trims of `strings`.
use Prim.Native.Nat.{ℕ}
use mathlib.Core.Bool.{Bool}
use mathlib.Core.List.{[], ◌∷◌}
use software_factory_templat.Base.Tests.{◌==◌, if◌then◌else◌}
use software_factory_templat.Base.Lists.{length, drop}
use software_factory_templat.Base.Text.{Bytes, bytes_eq, contains_byte, has_prefix}
use software_factory_templat.Base.Trim.{trim_right}

-- The text behind the last separator.
unfoldable pub after_last : ℕ → Bytes → Bytes
after_last c [] = []
after_last c (x ∷ xs) =
    let rest = after_last c xs in if contains_byte c xs then rest else if x == c then xs else x ∷ xs

abbrev is_slash : ℕ → Bool
is_slash c = c == b'/'

abbrev or_slash : Bytes → Bytes
or_slash [] = b'/' ∷ []
or_slash (c ∷ cs) = c ∷ cs

-- `path.Base`
unfoldable pub base_name : Bytes → Bytes
unfolding after_last
base_name [] = b'.' ∷ []
base_name (c ∷ cs) = or_slash (after_last b'/' (trim_right is_slash (c ∷ cs)))

-- `path.Ext`
unfoldable pub extension : Bytes → Bytes
unfolding after_last
extension name =
    let last = after_last b'/' name in
    if contains_byte b'.' last then b'.' ∷ after_last b'.' last else []

-- `strings.TrimSuffix`
unfoldable pub trim_suffix : Bytes → Bytes → Bytes
trim_suffix [] suffix = []
trim_suffix (x ∷ xs) suffix =
    let rest = x ∷ trim_suffix xs suffix in if bytes_eq (x ∷ xs) suffix then [] else rest

-- `strings.TrimPrefix`
unfoldable pub trim_prefix : Bytes → Bytes → Bytes
trim_prefix text prefix = if has_prefix text prefix then drop (length prefix) text else text
