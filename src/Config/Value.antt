-- ===== src/Config/Value.antt =====
-- readers.go: the value grammar of one row, and the reader of a captured snapshot.
use software_factory_templat.Base.{
  ℕ, Bool, ◌&&◌, ◌||◌, List, [], ◌∷◌, ◌++◌, ◌==◌, if◌then◌else◌, Bytes, before, has_prefix, drop,
  length, trim_left, trim_right,
}
use software_factory_templat.Base.Rows.{lines}

-- `asciiSpace`, and the cutset " \t\r\v\f"
abbrev pub ascii_space : ℕ → Bool
ascii_space c = c == b' ' || c == b'\t' || c == b'\r' || c == 11 || c == 12

-- `strings.ReplaceAll(value, "\x00", "")`
abbrev pub drop_nul : Bytes → Bytes
drop_nul [] = []
drop_nul (c ∷ cs) = let rest = drop_nul cs in if c == 0 then rest else c ∷ rest

-- The loop over `i` from 1: the text before a space that a `#` follows.
unfoldable pub strip_comment : Bytes → Bytes
strip_comment [] = []
strip_comment (x ∷ []) = x ∷ []
strip_comment (x ∷ y ∷ ys) =
    let rest = x ∷ strip_comment (y ∷ ys) in if y == b'#' && ascii_space x then [] else rest

-- The branch on a leading quote.
unfoldable pub unquote : Bytes → Bytes
unfolding strip_comment
unquote [] = trim_right ascii_space []
unquote (c ∷ cs) =
    if c == b'"' then before b'"' cs else trim_right ascii_space (strip_comment (c ∷ cs))

abbrev pub or_fallback : Bytes → Bytes → Bytes
or_fallback [] fallback = fallback
or_fallback (c ∷ cs) fallback = c ∷ cs

unfoldable pub normalize_value : Bytes → Bytes → Bytes
unfolding unquote
normalize_value value fallback =
    or_fallback (unquote (drop_nul (trim_left ascii_space value))) fallback

-- The prefix `key + ":"` of a row.
abbrev pub key_prefix : Bytes → Bytes
key_prefix key = key ++ b':' ∷ []

-- The loop of `GetBytes` over the rows.
unfoldable pub get_rows : List Bytes → Bytes → Bytes → Bytes
get_rows [] key fallback = fallback
get_rows (line ∷ rest) key fallback =
    if has_prefix line (key_prefix key)
    then normalize_value (drop (length (key_prefix key)) line) fallback
    else get_rows rest key fallback

unfoldable pub get_bytes : Bytes → Bytes → Bytes → Bytes
unfolding get_rows lines
get_bytes content key fallback = get_rows (lines content) key fallback
