-- ===== src/Loop/Runes.antt =====
-- bounded_input.go: the runes of decoded text and of diagnostic output. `Unicode` stands for
-- unicode/utf8 and unicode.
pub mod Fuel
use software_factory_templat.Base.{
  ℕ, zero, suc, Bool, true, false, not, ◌&&◌, ◌||◌, ◌==◌, ltb, leb, List, [], ◌∷◌, ◌++◌, length,
  take, drop, Bytes, if◌then◌else◌,
}

pub record Unicode : Type 0 where
  -- `utf8.DecodeRune`: the rune and its size
  pub decode_rune : Bytes → ℕ × ℕ
  -- `unicode.IsSpace`
  pub is_space : ℕ → Bool

-- `utf8.RuneError` and its encoding
abbrev pub rune_error : ℕ
rune_error = 65533

abbrev pub rune_error_bytes : Bytes
rune_error_bytes = 239 ∷ 191 ∷ 189 ∷ []

abbrev pub in_range : ℕ → ℕ → ℕ → Bool
in_range low high b = leb low b && leb b high

-- A surrogate in three bytes, which Go's decoder refuses.
unfoldable pub is_surrogate : Bytes → Bool
is_surrogate (x ∷ y ∷ z ∷ rest) = (x == 237) && in_range 160 191 y && in_range 128 191 z
is_surrogate [] = false
is_surrogate (x ∷ []) = false
is_surrogate (x ∷ y ∷ []) = false

-- `want`, by the first byte
abbrev pub wanted : ℕ → ℕ
wanted b =
    if in_range 194 223 b
    then 2
    else if in_range 224 239 b
    then 3
    else if in_range 240 244 b
    then 4
    else 1

-- The second bytes that break after the first byte.
abbrev pub is_misplaced : ℕ → ℕ → Bool
is_misplaced first b =
    (first == 224) && ltb b 160
    || (first == 237) && leb 160 b
    || (first == 240) && ltb b 144
    || (first == 244) && leb 144 b

-- The inner loop: how many bytes after `consumed` go into one replacement.
unfoldable pub consume : (first consumed want : ℕ) → Bytes → ℕ
consume first consumed want [] = consumed
consume first consumed want (b ∷ rest) =
    let more = consume first (suc consumed) want rest in
    if ltb consumed want
    then (if not (in_range 128 191 b) || ((consumed == 1) && is_misplaced first b)
        then consumed
        else more)
    else consumed

unfoldable pub invalid_size : Bytes → ℕ
unfolding consume
invalid_size [] = 0
invalid_size (first ∷ rest) = consume first 1 (wanted first) rest

module _ (u : Unicode) where
  abbrev pub rune_size : Bytes → ℕ
  rune_size s = let size = (u.decode_rune s).1 in if (size == 1) && is_surrogate s then 3 else size

  -- On fuel: `decoded_rune_count` gives one unit to each byte.
  unfoldable pub count_runes : ℕ → Bytes → ℕ
  unfolding is_surrogate
  count_runes zero s = 0
  count_runes (suc n) [] = 0
  count_runes (suc n) (b ∷ s) = suc (count_runes n (drop (rune_size (b ∷ s)) (b ∷ s)))

  unfoldable pub decoded_rune_count : Bytes → ℕ
  unfolding count_runes
  decoded_rune_count s = count_runes (length s) s

  abbrev pub is_separator : ℕ → Bool
  is_separator r = u.is_space r || in_range 28 31 r

  -- `len(pythonFields(s)) == 0`
  abbrev pub all_separators : ℕ → Bytes → Bool
  all_separators zero s = true
  all_separators (suc n) [] = true
  all_separators (suc n) (b ∷ s) =
      is_separator (u.decode_rune (b ∷ s)).0
      && all_separators n (drop (u.decode_rune (b ∷ s)).1 (b ∷ s))

  abbrev pub is_blank : Bytes → Bool
  is_blank s = all_separators (length s) s

  abbrev pub is_valid_rune : Bytes → Bool
  is_valid_rune s = not ((u.decode_rune s).0 == rune_error) || not ((u.decode_rune s).1 == 1)

  unfoldable pub replace_invalid : ℕ → Bytes → Bytes
  unfolding invalid_size
  replace_invalid zero s = []
  replace_invalid (suc n) [] = []
  replace_invalid (suc n) (b ∷ s) =
      let size =
        if is_valid_rune (b ∷ s) then (u.decode_rune (b ∷ s)).1 else invalid_size (b ∷ s) in
      let written = if is_valid_rune (b ∷ s) then take size (b ∷ s) else rune_error_bytes in
      written ++ replace_invalid n (drop size (b ∷ s))

  unfoldable pub diagnostic_text : Bytes → Bytes
  unfolding replace_invalid
  diagnostic_text s = replace_invalid (length s) s
