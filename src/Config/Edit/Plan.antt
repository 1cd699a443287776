-- ===== src/Config/Edit/Plan.antt =====
-- What holds of an edit plan between two edits, and the text that a plan stands for.
use software_factory_templat.Base.{
  ◌≤◌, Bool, true, false, not, Option, none, some, List, [], ◌∷◌, ◌++◌, map, if◌then◌else◌, Bytes,
  bytes_eq, bytes_eq_iff, before, contains_byte, All, ◌≡◌, arith, Bool-cases, inl, inr, append-nil,
  append_assoc,
}
use software_factory_templat.Base.Rows.{join_rows, IsRow, lines}
use software_factory_templat.Base.Assoc.{lookup, is_some}
use software_factory_templat.Config.Keys.{IsKey, key_is, key_count, key_size, join_rows-append}
use software_factory_templat.Config.Edit.{
  EditEntry, EditRow, EditPlan, row, shown, line_of, tail_bytes, rendered,
}
use software_factory_templat.Config.Edit.Positions.{position}

abbrev pub shown_rows : EditPlan → List Bytes
shown_rows p = map (shown p.entries) (lines p.body)

abbrev pub appended_lines : EditPlan → List Bytes
appended_lines p = map line_of p.appended

abbrev pub tail_rows : Option EditRow → List Bytes
tail_rows none = []
tail_rows (some t) = if t.terminated then t.line ∷ [] else []

abbrev pub tail_rest : Option EditRow → Bytes
tail_rest none = []
tail_rest (some t) = if t.terminated then [] else t.line

-- The terminated rows of the text that the plan stands for, and its unterminated last row.
abbrev pub display_rows : EditPlan → List Bytes
display_rows p = shown_rows p ++ (tail_rows p.tail ++ appended_lines p)

abbrev pub display_rest : EditPlan → Bytes
display_rest p = tail_rest p.tail

-- Each indexed entry describes the rows that are shown for its key.
pub record IsIndexed (p : EditPlan) (key : Bytes) (entry : EditEntry) : Type 0 where
  pub key_ok : IsKey key
  pub counted : entry.count ≡ key_count key (shown_rows p)
  pub measured : entry.content_size ≡ key_size key (shown_rows p)
  pub placed : lookup key p.by_key ≡ position key (appended_lines p)
  pub once : key_count key (appended_lines p) ≤ 1
  pub colon : entry.replaced ≡ true → contains_byte b':' entry.replacement ≡ true
  pub kept : entry.replaced ≡ true → before b':' entry.replacement ≡ key

abbrev pub IsTail : List (Bytes × EditEntry) → Option EditRow → Type 0
IsTail entries none = Unit
IsTail entries (some t) = (t ≡ row entries t.line t.terminated) × IsRow t.line

abbrev pub IsAppended : List (Bytes × EditEntry) → EditRow → Type 0
IsAppended entries r = (r ≡ row entries r.line true) × IsRow r.line

abbrev pub is_open : Option EditRow → Bool
is_open none = false
is_open (some t) = not t.terminated

pub record IsPlan (p : EditPlan) : Type 0 where
  pub indexed :
      (key : Bytes) (entry : EditEntry) → lookup key p.entries ≡ some entry → IsIndexed p key entry
  pub rows_ok : All IsRow (shown_rows p)
  pub tail_ok : IsTail p.entries p.tail
  pub appended_ok : All (IsAppended p.entries) p.appended
  -- Nothing is appended behind an unterminated row.
  pub closed : is_open p.tail ≡ true → p.appended ≡ []

rendered_tail :
    (rows : List Bytes) (t : Option EditRow) (rest : List EditRow)
    → (is_open t ≡ true → rest ≡ [])
    → join_rows rows ++ (tail_bytes t ++ join_rows (map line_of rest))
      ≡ join_rows (rows ++ (tail_rows t ++ map line_of rest)) ++ tail_rest t
rendered_tail rows none rest h = rw (join_rows-append rows (map line_of rest), append-nil)
rendered_tail rows (some t) rest h = elim (Bool-cases t.terminated) [
  | inl e ↦ rw (
    e,
    join_rows-append rows (t.line ∷ map line_of rest),
    append_assoc t.line (b'\n' ∷ []) (join_rows (map line_of rest)),
    append-nil,
  )
  | inr e ↦ rw (e, h (rw e), append-nil, append-nil, append-nil)
]

-- The buffer is the text of the display.
pub rendered-display :
    (p : EditPlan) → IsPlan p → rendered p ≡ join_rows (display_rows p) ++ display_rest p
unfolding rendered
rendered-display p h = rendered_tail (shown_rows p) p.tail p.appended h.closed

lookup_ne :
    (entries : List (Bytes × EditEntry)) (key j : Bytes)
    → is_some (lookup key entries) ≡ true
    → is_some (lookup j entries) ≡ false
    → bytes_eq j key ≡ false
lookup_ne entries key j h k = elim (Bool-cases (bytes_eq j key)) [
  | inl e ↦ ground (arith, bytes_eq_iff j key)
  | inr e ↦ e
]

-- A row knows its key, if the key is a selected one.
pub row-key :
    (entries : List (Bytes × EditEntry)) (key line : Bytes) (terminated : Bool)
    → is_some (lookup key entries) ≡ true
    → bytes_eq key [] ≡ false
    → bytes_eq (row entries line terminated).key key ≡ key_is key line
unfolding row
row-key entries key line terminated h k =
    ground
      (arith, bytes_eq_iff key [], bytes_eq_iff [] key, lookup_ne entries key (before b':' line) h)

-- What is shown for a row has the key of the row.
pub shown_as-key :
    (key line j : Bytes) (entry : EditEntry)
    → key_is j line ≡ true
    → contains_byte b':' entry.replacement ≡ true
    → before b':' entry.replacement ≡ j
    → key_is key entry.replacement ≡ key_is key line
shown_as-key key line j entry h c b = ground (arith, bytes_eq_iff (before b':' line) j)
