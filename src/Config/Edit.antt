-- ===== src/Config/Edit.antt =====
-- editplan.go: an index over the rows of selected keys, edited in place and rendered once.
pub mod Positions
pub mod Plan
pub mod Sizes
pub mod Rows
pub mod Adding
pub mod Replacing
pub mod Refine
pub mod Create
pub mod Many
use software_factory_templat.Base.{
  ℕ, zero, suc, ◌+◌, ◌-◌, ◌*◌, Bool, true, false, not, ◌&&◌, ◌||◌, Option, none, some, List, [],
  ◌∷◌, ◌++◌, ◌==◌, ltb, if◌then◌else◌, Bytes, bytes_eq, before, after, contains_byte, drop, length,
  map, Result, ok, err, ◌>>=◌, ◌>>◌, refuse,
}
use software_factory_templat.Base.Rows.{split, lines, join_rows, last_row}
use software_factory_templat.Base.Assoc.{lookup, insert, is_some}
use software_factory_templat.Config.Value.{normalize_value, or_fallback, key_prefix}
use software_factory_templat.Config.Write.{config_write_limit, configuration_line}

-- 4096 legacy settings and the marker that the factory owns.
abbrev pub selected_key_limit : ℕ
selected_key_limit = 4097

pub record EditEntry : Type 0 where
  pub count : ℕ
  pub content_size : ℕ
  pub first : Bytes
  pub replacement : Bytes
  pub replaced : Bool

pub record EditRow : Type 0 where
  pub line : Bytes
  pub key : Bytes
  pub value : Bytes
  pub terminated : Bool

-- `by_key` holds pointers into `appended`: here the row's position there, so that a write through
-- the pointer is a write to that row.
pub record EditPlan : Type 0 where
  pub body : Bytes
  pub entries : List (Bytes × EditEntry)
  pub tail : Option EditRow
  pub appended : List EditRow
  pub by_key : List (Bytes × ℕ)
  pub size : ℕ

abbrev pub no_entry : EditEntry
no_entry = record { count = 0; content_size = 0; first = []; replacement = []; replaced = false }

-- `strings.ContainsAny(key, ":\x00\r\n")`
abbrev pub bad_key_byte : Bytes → Bool
bad_key_byte key =
    contains_byte b':' key
    || contains_byte 0 key
    || contains_byte b'\r' key
    || contains_byte b'\n' key

-- `strings.ContainsAny(value, "\x00\r\n\"")`
abbrev pub bad_value_byte : Bytes → Bool
bad_value_byte value =
    contains_byte 0 value
    || contains_byte b'\r' value
    || contains_byte b'\n' value
    || contains_byte b'"' value

-- The loop over the selected keys.
unfoldable pub select_keys :
    List Bytes → List (Bytes × EditEntry) → Result (List (Bytes × EditEntry))
unfolding lookup
select_keys [] entries = ok entries
select_keys (key ∷ keys) entries =
    let rest = select_keys keys (insert key no_entry entries) in
    let skip = select_keys keys entries in
    if bytes_eq key [] || bad_key_byte key
    then err "edit plan requires nonempty flat keys without colon or line breaks"
    else if is_some (lookup key entries)
    then skip
    else if length entries == selected_key_limit
    then err "edit plan exceeds selected-key limit"
    else rest

-- One matching row: the first one's value, the number of rows and their size.
unfoldable pub count_row : EditEntry → Bytes → EditEntry
unfolding normalize_value
count_row entry line = record entry {
  first = if entry.count == 0 then normalize_value (after b':' line) [] else entry.first;
  count = entry.count + 1;
  content_size = entry.content_size + length line;
}

unfoldable pub count_in :
    Bytes → List (Bytes × EditEntry) → Option EditEntry → List (Bytes × EditEntry)
unfolding count_row insert
count_in line entries none = entries
count_in line entries (some entry) = insert (before b':' line) (count_row entry line) entries

-- The loop over the terminated rows.
unfoldable pub index_rows : List Bytes → List (Bytes × EditEntry) → List (Bytes × EditEntry)
unfolding lookup count_in
index_rows [] entries = entries
index_rows (line ∷ rest) entries = index_rows rest (
    if contains_byte b':' line
    then count_in line entries (lookup (before b':' line) entries)
    else entries)

-- `p.row`; no selected key is empty, so the empty key stands for no key.
unfoldable pub row : List (Bytes × EditEntry) → Bytes → Bool → EditRow
unfolding lookup normalize_value
row entries line terminated =
    if contains_byte b':' line && is_some (lookup (before b':' line) entries)
    then record {
      line = line;
      key = before b':' line;
      value = normalize_value (after b':' line) [];
      terminated = terminated;
    }
    else record { line = line; key = []; value = []; terminated = terminated }

abbrev pub tail_row : List (Bytes × EditEntry) → Bytes → Option EditRow
tail_row entries [] = none
tail_row entries (c ∷ cs) = some (row entries (c ∷ cs) false)

-- `p.body` is the data up to the last newline.
unfoldable pub new_edit_plan : Bytes → List Bytes → Result EditPlan
unfolding select_keys index_rows row
new_edit_plan content selected = do
  refuse (ltb config_write_limit (length content)) "configuration exceeds 16 MiB"
  entries ← select_keys selected []
  let indexed = index_rows (split content).0 entries
  ok (record {
    body = join_rows (split content).0;
    entries = indexed;
    tail = tail_row indexed (split content).1;
    appended = [];
    by_key = [];
    size = length content;
  })

abbrev pub tail_matches : Option EditRow → Bytes → Bool
tail_matches none key = false
tail_matches (some r) key = bytes_eq r.key key

abbrev pub tail_length : Option EditRow → ℕ
tail_length none = 0
tail_length (some r) = length r.line

-- `p.byKey[key]`, and the row that the pointer leads to
abbrev pub nth_row : List EditRow → ℕ → Option EditRow
nth_row [] i = none
nth_row (r ∷ rs) zero = some r
nth_row (r ∷ rs) (suc i) = nth_row rs i

abbrev pub row_at : List EditRow → Option ℕ → Option EditRow
row_at rows none = none
row_at rows (some i) = nth_row rows i

-- `*appended = *updated`
abbrev pub write_row : List EditRow → Option ℕ → EditRow → List EditRow
write_row rows none r = rows
write_row [] (some i) r = []
write_row (x ∷ xs) (some zero) r = r ∷ xs
write_row (x ∷ xs) (some (suc i)) r = x ∷ write_row xs (some i) r

unfoldable pub appended_row : EditPlan → Bytes → Option EditRow
unfolding lookup
appended_row p key = row_at p.appended (lookup key p.by_key)

abbrev pub value_of : Option EditRow → Bytes
value_of none = []
value_of (some r) = r.value

unfoldable pub get : EditPlan → Bytes → Bytes → Result Bytes
unfolding lookup appended_row
get p key fallback = elim (lookup key p.entries) [
  | none ↦ err "edit plan key was not selected"
  | some entry ↦ ok (
      or_fallback
        (if not (entry.count == 0)
          then entry.first
          else if tail_matches p.tail key
          then value_of p.tail
          else value_of (appended_row p key))
        fallback)
]

abbrev pub one_if : Bool → ℕ
one_if true = 1
one_if false = 0

-- How many rows have the key, and how long they are together.
unfoldable pub matching_rows : EditPlan → EditEntry → Bytes → ℕ
unfolding appended_row
matching_rows p entry key =
    entry.count + one_if (tail_matches p.tail key) + one_if (is_some (appended_row p key))

unfoldable pub matching_size : EditPlan → EditEntry → Bytes → ℕ
unfolding appended_row
matching_size p entry key =
    entry.content_size
    + (if tail_matches p.tail key then tail_length p.tail else 0)
    + tail_length (appended_row p key)

-- The size after the edit, before it is checked.
unfoldable pub edited_size : EditPlan → EditEntry → Bytes → Bytes → ℕ
unfolding matching_rows matching_size
edited_size p entry key line =
    if matching_rows p entry key == 0
    then p.size + length line + 1
    else p.size + matching_rows p entry key * length line - matching_size p entry key

abbrev pub append_line : EditPlan → Bytes → Bytes → EditPlan
append_line p key line = record p {
  appended = p.appended ++ row p.entries line true ∷ [];
  by_key = insert key (length p.appended) p.by_key;
}

-- No row has the key: a new row, or an extension of an unterminated last row.
unfoldable pub add_line : EditPlan → Bytes → Bytes → EditPlan
unfolding row insert
add_line p key line = elim p.tail [
  | none ↦ append_line p key line
  | some t ↦
      if t.terminated
      then append_line p key line
      else record p { tail = some (row p.entries (t.line ++ line) true) }
]

unfoldable pub replaced_entry : EditEntry → Bytes → Bytes → EditEntry
unfolding normalize_value
replaced_entry entry key line = record entry {
  content_size = entry.count * length line;
  replacement = line;
  replaced = true;
  first = normalize_value (drop (length (key_prefix key)) line) [];
}

abbrev pub replace_tail : List (Bytes × EditEntry) → Option EditRow → Bytes → Bytes → Option EditRow
replace_tail entries none key line = none
replace_tail entries (some t) key line =
    if bytes_eq t.key key then some (row entries line t.terminated) else some t

unfoldable pub replace_lines : EditPlan → EditEntry → Bytes → Bytes → EditPlan
unfolding replaced_entry row lookup insert
replace_lines p entry key line = record p {
  entries =
      if entry.count == 0 then p.entries else insert key (replaced_entry entry key line) p.entries;
  tail = replace_tail p.entries p.tail key line;
  appended = write_row p.appended (lookup key p.by_key) (row p.entries line true);
}

unfoldable pub set_entry : EditPlan → EditEntry → Bytes → Bytes → Result EditPlan
unfolding edited_size add_line replace_lines matching_rows
set_entry p entry key value =
    let line = configuration_line key value in
    if ltb config_write_limit (edited_size p entry key line)
    then err "resulting configuration exceeds 16 MiB"
    else ok
        (record (if matching_rows p entry key == 0
          then add_line p key line
          else replace_lines p entry key line) { size = edited_size p entry key line })

unfoldable pub set : EditPlan → Bytes → Bytes → Result EditPlan
unfolding set_entry lookup
set p key value = elim (lookup key p.entries) [
  | none ↦ err "edit plan key was not selected"
  | some entry ↦
      if bad_value_byte value
      then err "edit plan value must round-trip on a single physical line"
      else set_entry p entry key value
]

-- What `Bytes` writes for one row of the body.
abbrev pub shown_as : Option EditEntry → Bytes → Bytes
shown_as none line = line
shown_as (some entry) line = if entry.replaced then entry.replacement else line

unfoldable pub shown : List (Bytes × EditEntry) → Bytes → Bytes
unfolding lookup
shown entries line =
    if contains_byte b':' line then shown_as (lookup (before b':' line) entries) line else line

abbrev pub tail_bytes : Option EditRow → Bytes
tail_bytes none = []
tail_bytes (some r) = r.line ++ (if r.terminated then b'\n' ∷ [] else [])

abbrev pub line_of : EditRow → Bytes
line_of r = r.line

-- The buffer that `Bytes` fills.
unfoldable pub rendered : EditPlan → Bytes
unfolding shown lines
rendered p =
    join_rows (map (shown p.entries) (lines p.body))
    ++ (tail_bytes p.tail ++ join_rows (map line_of p.appended))

unfoldable pub bytes : EditPlan → Result Bytes
unfolding rendered
bytes p =
    if length (rendered p) == p.size
    then ok (rendered p)
    else err "edit plan size did not match rendered configuration"
