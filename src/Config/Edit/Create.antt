-- ===== src/Config/Edit/Create.antt =====
-- A new plan stands for its input.
use mathlib.Core.Path.{subst}
use software_factory_templat.Base.{
  Bool, true, false, ◌&&◌, ◌||◌, none, some, List, [], ◌∷◌, ◌++◌, map, ◌==◌, ltb, if◌then◌else◌,
  Bytes, bytes_eq, bytes_eq_iff, before, contains_byte, length, All, ◌≡◌, refl, sym, ap, ◌∙◌, arith,
  Bool-cases, Option-cases, inl, inr, append-nil, append_assoc, ok, refuse, eq_of_some, eq_of_ok,
  >>=-eq-ok,
}
use software_factory_templat.Base.Rows.{
  join_rows, IsRow, lines, last_row, split, split-join, join-split, split-IsRow,
}
use software_factory_templat.Base.Assoc.{lookup, insert, lookup-insert, is_some}
use software_factory_templat.Config.Keys.{
  IsKey, key_is, key_count, key_size, key_count-append, key_size-append,
}
use software_factory_templat.Config.Edit.{
  EditEntry, EditPlan, no_entry, bad_key_byte, select_keys, count_row, count_in, index_rows,
  tail_row, tail_bytes, new_edit_plan, rendered, shown, selected_key_limit,
}
use software_factory_templat.Config.Edit.Plan.{IsPlan, IsTail, shown_rows}
use software_factory_templat.Config.Edit.Refine.{IsSized}
use software_factory_templat.Config.Write.{config_write_limit}
use software_factory_templat.Config.Edit.Rows.{row-row, line-row, terminated-row}

-- What an entry says of the rows seen so far.
pub record Describes (seen : List Bytes) (key : Bytes) (entry : EditEntry) : Type 0 where
  pub key_ok : IsKey key
  pub counted : entry.count ≡ key_count key seen
  pub measured : entry.content_size ≡ key_size key seen
  pub original : entry.replaced ≡ false

abbrev AllDescribe : List Bytes → List (Bytes × EditEntry) → Type 0
AllDescribe seen entries =
    (key : Bytes) (entry : EditEntry) → lookup key entries ≡ some entry → Describes seen key entry

insert-Describes :
    (seen : List Bytes) (key : Bytes) (entry : EditEntry) (entries : List (Bytes × EditEntry))
    → Describes seen key entry
    → AllDescribe seen entries
    → AllDescribe seen (insert key entry entries)
insert-Describes seen key entry entries d h other e o = elim (Bool-cases (bytes_eq key other)) [
  | inl q ↦
      subst (λ (x : EditEntry). Describes seen other x)
        (eq_of_some (sym (lookup-insert key other entry entries ∙ rw q) ∙ o))
        (subst (λ (j : Bytes). Describes seen j entry) ((bytes_eq_iff key other).0 q) d)
  | inr q ↦ h other e (sym (lookup-insert key other entry entries ∙ rw q) ∙ o)
]

fresh-Describes :
    (key : Bytes) → (bytes_eq key [] || bad_key_byte key) ≡ false → Describes [] key no_entry
fresh-Describes key h = record {
  key_ok = record { no_colon = ground arith; no_newline = ground arith; not_empty = ground arith };
  counted = refl;
  measured = refl;
  original = refl;
}

select_keys-Describes :
    (keys : List Bytes) (entries result : List (Bytes × EditEntry))
    → AllDescribe [] entries
    → select_keys keys entries ≡ ok result
    → AllDescribe [] result
unfolding select_keys
select_keys-Describes [] entries result h e =
    subst (λ (x : List (Bytes × EditEntry)). AllDescribe [] x) (cc) h
select_keys-Describes (key ∷ keys) entries result h e =
    elim (Bool-cases (bytes_eq key [] || bad_key_byte key)) [
      | inl bad ↦ cc (rw bad at e)
      | inr good ↦ elim (Bool-cases (is_some (lookup key entries))) [
        | inl there ↦ select_keys-Describes keys entries result h (rw (good, there) at e)
        | inr missing ↦ elim (Bool-cases (length entries == selected_key_limit)) [
          | inl full ↦ cc (rw (good, missing, full) at e)
          | inr room ↦
              select_keys-Describes keys (insert key no_entry entries) result
                (insert-Describes [] key no_entry entries (fresh-Describes key good) h)
                (rw (good, missing, room) at e)
        ]
      ]
    ]

concat-Describes :
    (seen : List Bytes) (line key : Bytes) (entry : EditEntry)
    → Describes seen key entry
    → key_is key line ≡ false
    → Describes (seen ++ line ∷ []) key entry
concat-Describes seen line key entry d n = record {
  key_ok = d.key_ok;
  counted = rw (key_count-append key seen (line ∷ []), n) (omega (arith, d.counted));
  measured = rw (key_size-append key seen (line ∷ []), n) (omega (arith, d.measured));
  original = d.original;
}

count_row-Describes :
    (seen : List Bytes) (line key : Bytes) (entry : EditEntry)
    → Describes seen key entry
    → key_is key line ≡ true
    → Describes (seen ++ line ∷ []) key (count_row entry line)
unfolding count_row
count_row-Describes seen line key entry d y = record {
  key_ok = d.key_ok;
  counted = rw (key_count-append key seen (line ∷ []), y) (omega (arith, d.counted));
  measured = rw (key_size-append key seen (line ∷ []), y) (omega (arith, d.measured));
  original = d.original;
}

-- One row of the scan.
row_step :
    (seen : List Bytes) (line : Bytes) (entries : List (Bytes × EditEntry))
    → AllDescribe seen entries
    → AllDescribe (seen ++ line ∷ []) (
        if contains_byte b':' line
        then count_in line entries (lookup (before b':' line) entries)
        else entries)
unfolding count_in
row_step seen line entries h key entry o = elim (Bool-cases (contains_byte b':' line)) [
  | inr c ↦ concat-Describes seen line key entry (h key entry (rw c at o)) (rw c)
  | inl c ↦ elim (Option-cases (lookup (before b':' line) entries)) [
    | inl none_there ↦
        let o' : lookup key entries ≡ some entry = rw (c, none_there) at o in
        concat-Describes seen line key entry (h key entry o')
          (rw c (other_key (bytes_eq (before b':' line) key) refl o' none_there))
    | inr (e, there) ↦
        let o' : lookup key (insert (before b':' line) (count_row e line) entries) ≡ some entry =
          rw (c, there) at o in
        let o'' = sym (lookup-insert (before b':' line) key (count_row e line) entries) ∙ o' in
        elim (Bool-cases (bytes_eq (before b':' line) key)) [
          | inl q ↦
              subst (λ (x : EditEntry). Describes (seen ++ line ∷ []) key x)
                (eq_of_some (rw q at o''))
                (count_row-Describes seen line key e
                  (h key e (
                    subst (λ (j : Bytes). lookup j entries ≡ some e) ((bytes_eq_iff _ key).0 q)
                      there))
                  (rw (c, q)))
          | inr q ↦ concat-Describes seen line key entry (h key entry (rw q at o'')) (rw (c, q))
        ]
  ]
]
  where
    other_key :
        (b : Bool)
        → bytes_eq (before b':' line) key ≡ b
        → lookup key entries ≡ some entry
        → lookup (before b':' line) entries ≡ none
        → (true && b) ≡ false
    other_key true q s n =
        cc (subst (λ (j : Bytes). lookup j entries ≡ none) ((bytes_eq_iff _ key).0 q) n)
    other_key false q s n = refl

index_rows-Describes :
    (rows seen : List Bytes) (entries : List (Bytes × EditEntry))
    → AllDescribe seen entries
    → AllDescribe (seen ++ rows) (index_rows rows entries)
unfolding index_rows
index_rows-Describes [] seen entries h = rw append-nil h
index_rows-Describes (line ∷ rest) seen entries h =
    subst (λ (s : List Bytes). AllDescribe s (index_rows (line ∷ rest) entries))
      (append_assoc seen (line ∷ []) rest)
      (index_rows-Describes rest (seen ++ line ∷ [])
        (if contains_byte b':' line
          then count_in line entries (lookup (before b':' line) entries)
          else entries)
        (row_step seen line entries h))

-- Nothing is replaced yet.
shown-original :
    (entries : List (Bytes × EditEntry)) (seen : List Bytes) (line : Bytes)
    → AllDescribe seen entries
    → shown entries line ≡ line
unfolding shown
shown-original entries seen line h = elim (Bool-cases (contains_byte b':' line)) [
  | inr c ↦ rw c
  | inl c ↦ elim (Option-cases (lookup (before b':' line) entries)) [
    | inl o ↦ rw (c, o)
    | inr (e, o) ↦ rw (c, o, (h (before b':' line) e o).original)
  ]
]

map-original :
    (entries : List (Bytes × EditEntry)) (seen rows : List Bytes)
    → AllDescribe seen entries
    → map (shown entries) rows ≡ rows
map-original entries seen [] h = refl
map-original entries seen (r ∷ rs) h =
    rw (shown-original entries seen r h, map-original entries seen rs h)

lines-join_rows : (rows : List Bytes) → All IsRow rows → lines (join_rows rows) ≡ rows
unfolding lines
lines-join_rows rows h =
    ap (λ (s : List Bytes × Bytes). s.0 ++ last_row s.1)
      (ap split (sym (append-nil (join_rows rows))) ∙ split-join rows [] h refl)
    ∙ append-nil rows

tail_row-IsTail :
    (entries : List (Bytes × EditEntry)) (rest : Bytes)
    → IsRow rest
    → IsTail entries (tail_row entries rest)
tail_row-IsTail entries [] h = tt
tail_row-IsTail entries (c ∷ cs) h =
    (row-row entries (c ∷ cs) false, rw (line-row entries (c ∷ cs) false) h)

abbrev scanned : Bytes → List (Bytes × EditEntry) → EditPlan
scanned content entries = record {
  body = join_rows (split content).0;
  entries = index_rows (split content).0 entries;
  tail = tail_row (index_rows (split content).0 entries) (split content).1;
  appended = [];
  by_key = [];
  size = length content;
}

module _ (content : Bytes) (entries : List (Bytes × EditEntry))
    (fresh : AllDescribe [] entries) where
  described : AllDescribe (split content).0 (scanned content entries).entries
  described = index_rows-Describes (split content).0 [] entries fresh

  scanned_rows : shown_rows (scanned content entries) ≡ (split content).0
  scanned_rows =
      ap (map (shown (scanned content entries).entries))
        (lines-join_rows (split content).0 (split-IsRow content).0)
      ∙ map-original (scanned content entries).entries (split content).0 (split content).0 described

  scanned-IsPlan : IsPlan (scanned content entries)
  unfolding lookup
  scanned-IsPlan = record {
    indexed = λ key entry o.
        let d = described key entry o in
        record {
          key_ok = d.key_ok;
          counted = d.counted ∙ ap (key_count key) (sym scanned_rows);
          measured = d.measured ∙ ap (key_size key) (sym scanned_rows);
          placed = refl;
          once = omega arith;
          colon = λ r. cc (d.original);
          kept = λ r. cc (d.original);
        };
    rows_ok = rw scanned_rows (split-IsRow content).0;
    tail_ok =
        tail_row-IsTail (scanned content entries).entries (split content).1 (split-IsRow content).1;
    appended_ok = tt;
    closed = λ o. refl;
  }

  scanned_tail :
      (rest : Bytes) → tail_bytes (tail_row (scanned content entries).entries rest) ++ [] ≡ rest
  scanned_tail [] = refl
  scanned_tail (c ∷ cs) = rw (
    line-row (scanned content entries).entries (c ∷ cs) false,
    terminated-row (scanned content entries).entries (c ∷ cs) false,
    append-nil,
    append-nil,
  )

  scanned-rendered : rendered (scanned content entries) ≡ content
  unfolding rendered
  scanned-rendered =
      ap
        (λ (rows : List Bytes). join_rows rows ++ (tail_bytes (scanned content entries).tail ++ []))
        scanned_rows
      ∙ ap (λ (t : Bytes). join_rows (split content).0 ++ t) (scanned_tail (split content).1)
      ∙ join-split content

no_entries : AllDescribe [] []
unfolding lookup
no_entries key entry h = cc

new_edit_plan-scanned :
    (content : Bytes) (selected : List Bytes) (p : EditPlan)
    → new_edit_plan content selected ≡ ok p
    → (entries : List (Bytes × EditEntry)) × AllDescribe [] entries × (scanned content entries ≡ p)
unfolding new_edit_plan
new_edit_plan-scanned content selected p h =
    let (u, fits, h') =
      >>=-eq-ok (refuse (ltb config_write_limit (length content)) "configuration exceeds 16 MiB") _
        h in
    let (entries, picked, made) = >>=-eq-ok (select_keys selected []) _ h' in
    (entries, select_keys-Describes selected [] entries no_entries picked, eq_of_ok made)

-- A plan that new_edit_plan makes is well formed, its size is that of its text, and its rendered
-- text is the text it was made of.
pub new_edit_plan-IsSized :
    (content : Bytes) (selected : List Bytes) (p : EditPlan)
    → new_edit_plan content selected ≡ ok p
    → IsSized p × (rendered p ≡ content)
new_edit_plan-IsSized content selected p h =
    let (entries, fresh, made) = new_edit_plan-scanned content selected p h in
    subst (λ (q : EditPlan). IsSized q × (rendered q ≡ content)) made
      ((
        record {
          plan = scanned-IsPlan content entries fresh;
          sized = ap length (sym (scanned-rendered content entries fresh));
        },
        scanned-rendered content entries fresh,
      ))
