-- ===== src/Config/Edit/Replacing.antt =====
-- The edit of a key that some rows have.
use mathlib.Core.Path.{subst}
use software_factory_templat.Base.{
  ℕ, zero, suc, ◌*◌, Bool, true, false, Option, none, some, List, [], ◌∷◌, ◌++◌, map, ◌==◌,
  if◌then◌else◌, Bytes, bytes_eq, bytes_eq_iff, before, contains_byte, length, All, ◌≡◌, refl, sym,
  ap, ◌∙◌, arith, Bool-cases, inl, inr, ==_iff, eq_of_some,
}
use software_factory_templat.Base.Rows.{IsRow, lines}
use software_factory_templat.Base.Assoc.{lookup, insert, lookup-insert, is_some}
use software_factory_templat.Config.Keys.{
  key_is, key_count, key_size, key_size_none, replace_all, replace_all_none, replace_all-append,
  replace_all-IsRow,
}
use software_factory_templat.Config.Write.Total.{replaced}
use software_factory_templat.Config.Edit.{
  EditEntry, EditRow, EditPlan, row, shown, rendered, replaced_entry, replace_tail, replace_lines,
  write_row,
}
use software_factory_templat.Config.Edit.Plan.{
  shown_rows, appended_lines, tail_rows, tail_rest, display_rows, display_rest, is_open, IsIndexed,
  IsTail, IsAppended, IsPlan, rendered-display, row-key,
}
use software_factory_templat.Config.Edit.Positions.{
  write_row-replace_all, position-replace_all, key_count-replace_all, key_size-replace_all_self,
  key_size-replace_all_ne,
}
use software_factory_templat.Config.Edit.Rows.{line-row, terminated-row, row-row, row-same}
use software_factory_templat.Config.Edit.Sizes.{shown-key}

-- The entries after the edit.
abbrev new_entries : List (Bytes × EditEntry) → EditEntry → Bytes → Bytes → List (Bytes × EditEntry)
new_entries entries entry key line =
    if entry.count == 0 then entries else insert key (replaced_entry entry key line) entries

-- The edited key's entry after the edit.
abbrev new_entry : EditEntry → Bytes → Bytes → EditEntry
new_entry entry key line = if entry.count == 0 then entry else replaced_entry entry key line

lookup-new_entries :
    (entries : List (Bytes × EditEntry)) (entry : EditEntry) (key line other : Bytes)
    → lookup key entries ≡ some entry
    → lookup other (new_entries entries entry key line)
      ≡ (if bytes_eq key other then some (new_entry entry key line) else lookup other entries)
lookup-new_entries entries entry key line other h = elim (Bool-cases (entry.count == 0)) [
  | inl e ↦ rw e (elim (Bool-cases (bytes_eq key other)) [
    | inl q ↦ rw q (rw (← (bytes_eq_iff key other).0 q) h)
    | inr q ↦ rw q
  ])
  | inr e ↦ rw (e, lookup-insert key other (replaced_entry entry key line) entries)
]

selected_as_before :
    (entries : List (Bytes × EditEntry)) (entry : EditEntry) (key line other : Bytes)
    → lookup key entries ≡ some entry
    → is_some (lookup other (new_entries entries entry key line)) ≡ is_some (lookup other entries)
selected_as_before entries entry key line other h =
    rw (lookup-new_entries entries entry key line other h) (elim (Bool-cases (bytes_eq key other)) [
      | inl q ↦ rw q (rw (← (bytes_eq_iff key other).0 q, h) refl)
      | inr q ↦ rw q
    ])

row-new_entries :
    (entries : List (Bytes × EditEntry)) (entry : EditEntry) (key line l : Bytes) (b : Bool)
    → lookup key entries ≡ some entry
    → row (new_entries entries entry key line) l b ≡ row entries l b
row-new_entries entries entry key line l b h =
    row-same (new_entries entries entry key line) entries l b
      (selected_as_before entries entry key line (before b':' l) h)

-- An edit selects no key and drops none.
pub selected-replace_lines :
    (p : EditPlan) (entry : EditEntry) (key line other : Bytes)
    → lookup key p.entries ≡ some entry
    → is_some (lookup other (replace_lines p entry key line).entries)
      ≡ is_some (lookup other p.entries)
unfolding replace_lines
selected-replace_lines p entry key line other h =
    selected_as_before p.entries entry key line other h

-- Every row of the key shows the new line, if the body has such a row; the others are as before.
shown-new_entries :
    (entries : List (Bytes × EditEntry)) (entry : EditEntry) (key line l : Bytes)
    → lookup key entries ≡ some entry
    → (entry.count == 0) ≡ false
    → shown (new_entries entries entry key line) l
      ≡ (if key_is key l then line else shown entries l)
unfolding shown replaced_entry
shown-new_entries entries entry key line l h k = elim (Bool-cases (contains_byte b':' l)) [
  | inr e ↦ rw e
  | inl e ↦
      rw (e, lookup-new_entries entries entry key line (before b':' l) h)
        (elim (Bool-cases (bytes_eq key (before b':' l))) [
          | inl q ↦
              rw (q, k)
                (ground (arith, bytes_eq_iff key (before b':' l), bytes_eq_iff (before b':' l) key))
          | inr q ↦
              rw q
                (ground (arith, bytes_eq_iff key (before b':' l), bytes_eq_iff (before b':' l) key))
        ])
]

map-shown :
    (p : EditPlan) (entry : EditEntry) (key line : Bytes) (rs : List Bytes)
    → IsPlan p
    → lookup key p.entries ≡ some entry
    → (entry.count == 0) ≡ false
    → map (shown (new_entries p.entries entry key line)) rs
      ≡ replace_all key line (map (shown p.entries) rs)
map-shown p entry key line [] h selected some_rows = refl
map-shown p entry key line (r ∷ rs) h selected some_rows = rw (
  shown-new_entries p.entries entry key line r selected some_rows,
  shown-key p key r h,
  map-shown p entry key line rs h selected some_rows,
)

shown_rows-new_entries :
    (p : EditPlan) (entry : EditEntry) (key line : Bytes)
    → IsPlan p
    → lookup key p.entries ≡ some entry
    → map (shown (new_entries p.entries entry key line)) (lines p.body)
      ≡ replace_all key line (shown_rows p)
shown_rows-new_entries p entry key line h selected = elim (Bool-cases (entry.count == 0)) [
  | inr e ↦ map-shown p entry key line (lines p.body) h selected e
  | inl e ↦ rw e (
      sym (
        replace_all_none key line (shown_rows p)
          (sym (h.indexed key entry selected).counted ∙ (==_iff entry.count 0).0 e)))
]

-- The last row after the edit.
tail_replaced :
    (entries : List (Bytes × EditEntry)) (key line : Bytes) (t : Option EditRow)
    → is_some (lookup key entries) ≡ true
    → bytes_eq key [] ≡ false
    → IsTail entries t
    → (tail_rows (replace_tail entries t key line) ≡ replace_all key line (tail_rows t))
      × (tail_rest (replace_tail entries t key line)
          ≡ (if key_is key (tail_rest t) then line else tail_rest t))
      × (is_open (replace_tail entries t key line) ≡ is_open t)
tail_replaced entries key line none h k o = (refl, refl, refl)
tail_replaced entries key line (some t) h k o =
    let keyed : bytes_eq t.key key ≡ key_is key t.line =
      ap (λ (r : EditRow). bytes_eq r.key key) o.0 ∙ row-key entries key t.line t.terminated h k in
    let at_end = terminated-row entries line t.terminated in
    let at_line = line-row entries line t.terminated in (ground arith, ground arith, ground arith)

replaced-IsTail :
    (old new : List (Bytes × EditEntry)) (key line : Bytes) (t : Option EditRow)
    → ((l : Bytes) (b : Bool) → row new l b ≡ row old l b)
    → IsRow line
    → IsTail old t
    → IsTail new (replace_tail old t key line)
replaced-IsTail old new key line none same h o = tt
replaced-IsTail old new key line (some t) same h o = elim (Bool-cases (bytes_eq t.key key)) [
  | inl e ↦
      rw e ((row-row old line t.terminated ∙ sym (same _ _), rw (line-row old line t.terminated) h))
  | inr e ↦ rw e ((o.0 ∙ sym (same _ _), o.1))
]

write_row-IsAppended :
    (old new : List (Bytes × EditEntry)) (line : Bytes) (rs : List EditRow) (o : Option ℕ)
    → ((l : Bytes) (b : Bool) → row new l b ≡ row old l b)
    → IsRow line
    → All (IsAppended old) rs
    → All (IsAppended new) (write_row rs o (row old line true))
write_row-IsAppended old new line [] none same h k = tt
write_row-IsAppended old new line [] (some i) same h k = tt
write_row-IsAppended old new line (r ∷ rs) none same h k =
    ((k.0.0 ∙ sym (same _ _), k.0.1), write_row-IsAppended old new line rs none same h k.1)
write_row-IsAppended old new line (r ∷ rs) (some zero) same h k = (
  (
    ap (λ l. row old l true) (sym (line-row old line true)) ∙ sym (same _ _),
    rw (line-row old line true) h,
  ),
  write_row-IsAppended old new line rs none same h k.1,
)
write_row-IsAppended old new line (r ∷ rs) (some (suc i)) same h k =
    ((k.0.0 ∙ sym (same _ _), k.0.1), write_row-IsAppended old new line rs (some i) same h k.1)

new_entry-replacement :
    (entry : EditEntry) (key line : Bytes)
    → contains_byte b':' line ≡ true
    → before b':' line ≡ key
    → (entry.replaced ≡ true → contains_byte b':' entry.replacement ≡ true)
    → (entry.replaced ≡ true → before b':' entry.replacement ≡ key)
    → ((new_entry entry key line).replaced ≡ true
        → contains_byte b':' (new_entry entry key line).replacement ≡ true)
      × ((new_entry entry key line).replaced ≡ true
          → before b':' (new_entry entry key line).replacement ≡ key)
unfolding replaced_entry
new_entry-replacement entry key line c b k l = elim (Bool-cases (entry.count == 0)) [
  | inl e ↦ rw e (k, l)
  | inr e ↦ rw e (λ _. c, λ _. b)
]

new_entry-size :
    (entry : EditEntry) (key line : Bytes)
    → (entry.count ≡ 0 → entry.content_size ≡ 0)
    → (new_entry entry key line).content_size ≡ entry.count * length line
unfolding replaced_entry
new_entry-size entry key line z = elim (Bool-cases (entry.count == 0)) [
  | inl e ↦
      let none : entry.count ≡ 0 = (==_iff entry.count 0).0 e in
      rw e (z none ∙ omega (arith, ap (λ (n : ℕ). n * length line) none))
  | inr e ↦ rw e
]

key_size_of :
    (entry : EditEntry) (key line : Bytes) (rows : List Bytes)
    → entry.count ≡ key_count key rows
    → entry.content_size ≡ key_size key rows
    → entry.count ≡ 0
    → entry.content_size ≡ 0
key_size_of entry key line rows c m z = m ∙ key_size_none key rows (sym c ∙ z)

nothing_written : (rs : List EditRow) (o : Option ℕ) (r : EditRow) → rs ≡ [] → write_row rs o r ≡ []
nothing_written [] none r e = refl
nothing_written [] (some i) r e = refl
nothing_written (x ∷ rs) o r e = cc

module _ (p : EditPlan) (key line : Bytes) (entry : EditEntry) (h : IsPlan p)
    (selected : lookup key p.entries ≡ some entry) (is_row : IsRow line)
    (contains : contains_byte b':' line ≡ true) (same : before b':' line ≡ key) where
  new_shown : shown_rows (replace_lines p entry key line) ≡ replace_all key line (shown_rows p)
  unfolding replace_lines
  new_shown = shown_rows-new_entries p entry key line h selected

  new_appended :
      appended_lines (replace_lines p entry key line) ≡ replace_all key line (appended_lines p)
  unfolding replace_lines
  new_appended =
      let i = h.indexed key entry selected in
      rw i.placed (
        write_row-replace_all key p.appended (row p.entries line true) i.once
        ∙ rw (line-row p.entries line true))

  -- An entry describes the rows after the edit, whether it is the edited key's or not.
  self-IsIndexed : IsIndexed (replace_lines p entry key line) key (new_entry entry key line)
  unfolding replace_lines replaced_entry
  self-IsIndexed =
      let i = h.indexed key entry selected in
      record {
        key_ok = i.key_ok;
        counted =
            rw (new_shown, key_count-replace_all key line contains same key (shown_rows p))
              (ground (arith, i.counted));
        measured =
            rw
              (
                new_shown,
                key_size-replace_all_self key line contains same (shown_rows p),
                ← i.counted,
              )
              (new_entry-size entry key line
                (key_size_of entry key line (shown_rows p) i.counted i.measured));
        placed =
            rw (new_appended, position-replace_all key line contains same key (appended_lines p))
              i.placed;
        once =
            rw (new_appended, key_count-replace_all key line contains same key (appended_lines p))
              i.once;
        colon = (new_entry-replacement entry key line contains same (i.colon) (i.kept)).0;
        kept = (new_entry-replacement entry key line contains same (i.colon) (i.kept)).1;
      }

  other-IsIndexed :
      (other : Bytes) (e : EditEntry)
      → lookup other p.entries ≡ some e
      → bytes_eq key other ≡ false
      → IsIndexed (replace_lines p entry key line) other e
  unfolding replace_lines
  other-IsIndexed other e o ne =
      let i = h.indexed other e o in
      record {
        key_ok = i.key_ok;
        counted =
            rw (new_shown, key_count-replace_all key line contains same other (shown_rows p))
              i.counted;
        measured =
            rw (new_shown, key_size-replace_all_ne key line contains same other (shown_rows p) ne)
              i.measured;
        placed =
            rw (new_appended, position-replace_all key line contains same other (appended_lines p))
              i.placed;
        once =
            rw (new_appended, key_count-replace_all key line contains same other (appended_lines p))
              i.once;
        colon = i.colon;
        kept = i.kept;
      }

  replace_lines-IsIndexed :
      (other : Bytes) (e : EditEntry)
      → lookup other (replace_lines p entry key line).entries ≡ some e
      → IsIndexed (replace_lines p entry key line) other e
  unfolding replace_lines
  replace_lines-IsIndexed other e o = elim (Bool-cases (bytes_eq key other)) [
    | inl q ↦
        let found : some (new_entry entry key line) ≡ some e =
          sym (lookup-new_entries p.entries entry key line other selected ∙ rw q) ∙ o in
        subst
          (λ (x : EditEntry).
            IsIndexed (unfold replace_lines in replace_lines p entry key line) other x)
          (eq_of_some found)
          (subst
            (λ (j : Bytes).
              IsIndexed (unfold replace_lines in replace_lines p entry key line) j
                (new_entry entry key line))
            ((bytes_eq_iff key other).0 q) self-IsIndexed)
    | inr q ↦
        other-IsIndexed other e
          (sym (lookup-new_entries p.entries entry key line other selected ∙ rw q) ∙ o) q
  ]

  replaced_tail :
      (tail_rows (replace_lines p entry key line).tail ≡ replace_all key line (tail_rows p.tail))
      × (tail_rest (replace_lines p entry key line).tail
          ≡ (if key_is key (tail_rest p.tail) then line else tail_rest p.tail))
      × (is_open (replace_lines p entry key line).tail ≡ is_open p.tail)
  unfolding replace_lines
  replaced_tail =
      tail_replaced p.entries key line p.tail (rw selected)
        (h.indexed key entry selected).key_ok.not_empty h.tail_ok

  pub replace_lines-IsPlan : IsPlan (replace_lines p entry key line)
  unfolding replace_lines
  replace_lines-IsPlan =
      let rows_same =
        λ (l : Bytes) (b : Bool). row-new_entries p.entries entry key line l b selected in
      record {
        indexed = replace_lines-IsIndexed;
        rows_ok = rw new_shown (replace_all-IsRow key line (shown_rows p) is_row h.rows_ok);
        tail_ok =
            replaced-IsTail p.entries (new_entries p.entries entry key line) key line p.tail
              rows_same is_row h.tail_ok;
        appended_ok =
            write_row-IsAppended p.entries (new_entries p.entries entry key line) line p.appended
              (lookup key p.by_key) rows_same is_row h.appended_ok;
        closed = λ o.
            nothing_written p.appended (lookup key p.by_key) (row p.entries line true)
              (h.closed (sym replaced_tail.2 ∙ o));
      }

  -- Every row of the key is replaced, and the plan still describes what it stands for.
  pub replace_lines-replaces :
      rendered (replace_lines p entry key line)
      ≡ replaced key line (display_rows p) (display_rest p)
  replace_lines-replaces =
      rendered-display (replace_lines p entry key line) replace_lines-IsPlan
      ∙ rw (
        new_shown,
        new_appended,
        replaced_tail.0,
        replaced_tail.1,
        replace_all-append key line (shown_rows p) (tail_rows p.tail ++ appended_lines p),
        replace_all-append key line (tail_rows p.tail) (appended_lines p),
      )
