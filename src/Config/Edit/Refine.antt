-- ===== src/Config/Edit/Refine.antt =====
-- The edit plan against the single rewrite of write.go.
use mathlib.Core.Path.{subst}
use software_factory_templat.Base.{
  String, ℕ, Bool, true, false, Option, none, some, List, [], ◌∷◌, ◌++◌, map, ◌==◌, ltb,
  if◌then◌else◌, Bytes, contains_byte, length, All, ◌≡◌, refl, sym, ap, ◌∙◌, arith, Bool-cases,
  Option-cases, inl, inr, append_assoc, ==_iff, Result, ok, err, ◌>>=◌, All-append,
}
use software_factory_templat.Base.Rows.{join_rows, IsRow, split, split-join}
use software_factory_templat.Base.Assoc.{lookup, is_some}
use software_factory_templat.Config.Keys.{
  key_count, contains-configuration_line, before-configuration_line, key_is-configuration_line,
  configuration_line-IsRow, replace_all_none, key_count-append,
}
use software_factory_templat.Config.Write.{config_write_limit, configuration_line, rewrite_config}
use software_factory_templat.Config.Write.Total.{
  matches, edited, replaced, capped, rewrite_config-edited,
}
use software_factory_templat.Config.Edit.{
  EditEntry, EditRow, EditPlan, add_line, replace_lines, set_entry, set, bytes, rendered,
  matching_rows, edited_size, bad_value_byte,
}
use software_factory_templat.Config.Edit.Plan.{
  shown_rows, appended_lines, tail_rows, tail_rest, display_rows, display_rest, IsPlan, IsTail,
  IsAppended, rendered-display,
}
use software_factory_templat.Config.Edit.Sizes.{edited_size-length, matching_rows-matches}
use software_factory_templat.Config.Edit.Adding.{add_line-adds, selected-add_line}
use software_factory_templat.Config.Edit.Replacing.{
  replace_lines-IsPlan, replace_lines-replaces, selected-replace_lines,
}

-- A plan whose size is that of its text.
pub record IsSized (p : EditPlan) : Type 0 where
  pub plan : IsPlan p
  pub sized : p.size ≡ length (rendered p)

-- With the size right, rendering succeeds.
pub bytes-rendered : (p : EditPlan) → IsSized p → bytes p ≡ ok (rendered p)
unfolding bytes
bytes-rendered p h = ground (arith, h.sized)

tail-IsRow :
    (entries : List (Bytes × EditEntry)) (t : Option EditRow)
    → IsTail entries t
    → All IsRow (tail_rows t) × IsRow (tail_rest t)
tail-IsRow entries none h = (tt, refl)
tail-IsRow entries (some t) h = ground arith

appended-IsRow :
    (entries : List (Bytes × EditEntry)) (rs : List EditRow)
    → All (IsAppended entries) rs
    → All IsRow (map (λ (r : EditRow). r.line) rs)
appended-IsRow entries [] h = tt
appended-IsRow entries (r ∷ rs) h = (h.0.1, appended-IsRow entries rs h.1)

-- Splitting the rendered text gives the display back.
split-rendered : (p : EditPlan) → IsPlan p → split (rendered p) ≡ (display_rows p, display_rest p)
split-rendered p h =
    let t = tail-IsRow p.entries p.tail h.tail_ok in
    ap split (rendered-display p h)
    ∙ split-join (display_rows p) (display_rest p)
        (All-append IsRow (shown_rows p) (tail_rows p.tail ++ appended_lines p) h.rows_ok (
          All-append IsRow (tail_rows p.tail) (appended_lines p) t.0
            (appended-IsRow p.entries p.appended h.appended_ok)))
        t.1

clean_newline : (value : Bytes) → bad_value_byte value ≡ false → contains_byte b'\n' value ≡ false
clean_newline value h = ground arith

no_match :
    (key line : Bytes) (rows : List Bytes) (rest : Bytes)
    → matches key rows rest ≡ 0
    → replaced key line rows rest ≡ join_rows rows ++ rest
no_match key line rows rest h = rw (replace_all_none key line rows (omega arith)) (ground arith)

none_in_parts :
    (key : Bytes) (a b c : List Bytes) (rest : Bytes)
    → matches key (a ++ (b ++ c)) rest ≡ 0
    → key_count key c ≡ 0
none_in_parts key a b c rest h =
    omega (arith, key_count-append key a (b ++ c), key_count-append key b c)

module _ (p : EditPlan) (key value : Bytes) (entry : EditEntry) (h : IsPlan p)
    (selected : lookup key p.entries ≡ some entry) (clean : bad_value_byte value ≡ false) where
  abbrev line : Bytes
  line = configuration_line key value

  -- The plan after the edit, before its size is written.
  abbrev after_edit : EditPlan
  after_edit =
      if matching_rows p entry key == 0 then add_line p key line else replace_lines p entry key line

  line_ok : IsRow line
  line_ok =
      configuration_line-IsRow key value (h.indexed key entry selected).key_ok.no_newline
        (clean_newline value clean)

  after_edit-edited :
      IsPlan after_edit × (rendered after_edit ≡ edited key line (display_rows p) (display_rest p))
  after_edit-edited =
      let k = (h.indexed key entry selected).key_ok in
      let count = matching_rows-matches p key entry h selected in
      elim (Bool-cases (matches key (display_rows p) (display_rest p) == 0)) [
        | inl e ↦
            let none = (==_iff (matches key (display_rows p) (display_rest p)) 0).0 e in
            let added =
              add_line-adds p key line h line_ok
                (λ other. key_is-configuration_line key value other k.no_colon)
                (none_in_parts key (shown_rows p) (tail_rows p.tail) (appended_lines p)
                  (display_rest p) none) in
            rw (count, e, no_match key line (display_rows p) (display_rest p) none)
              ((
                added.0,
                added.1
                    ∙ sym (
                        append_assoc (join_rows (display_rows p)) (display_rest p)
                          (line ++ b'\n' ∷ [])),
              ))
        | inr e ↦
            rw (count, e)
              ((
                replace_lines-IsPlan p key line entry h selected line_ok
                    (contains-configuration_line key value)
                    (before-configuration_line key value k.no_colon),
                replace_lines-replaces p key line entry h selected line_ok
                    (contains-configuration_line key value)
                    (before-configuration_line key value k.no_colon),
              ))
      ]

resized-IsPlan : (p : EditPlan) (n : ℕ) → IsPlan p → IsPlan (record p { size = n })
resized-IsPlan p n h = record {
  indexed = λ other e o.
      let i = h.indexed other e o in
      record {
        key_ok = i.key_ok;
        counted = i.counted;
        measured = i.measured;
        placed = i.placed;
        once = i.once;
        colon = i.colon;
        kept = i.kept;
      };
  rows_ok = h.rows_ok;
  tail_ok = h.tail_ok;
  appended_ok = h.appended_ok;
  closed = h.closed;
}

resized-rendered : (p : EditPlan) (n : ℕ) → rendered (record p { size = n }) ≡ rendered p
unfolding rendered
resized-rendered p n = refl

module _ (p : EditPlan) (key value : Bytes) (entry : EditEntry) (h : IsSized p)
    (selected : lookup key p.entries ≡ some entry) (clean : bad_value_byte value ≡ false) where
  abbrev target : Bytes
  target = edited key (configuration_line key value) (display_rows p) (display_rest p)

  abbrev sized_edit : EditPlan
  sized_edit = record (after_edit p key value entry h.plan selected clean) {
    size = edited_size p entry key (configuration_line key value);
  }

  sized_edit-rendered : rendered sized_edit ≡ target
  sized_edit-rendered =
      resized-rendered (after_edit p key value entry h.plan selected clean)
        (edited_size p entry key (configuration_line key value))
      ∙ (after_edit-edited p key value entry h.plan selected clean).1

  size_right : edited_size p entry key (configuration_line key value) ≡ length target
  size_right = edited_size-length p key (configuration_line key value) entry h.plan selected h.sized

  sized_edit-IsSized : IsSized sized_edit
  sized_edit-IsSized = record {
    plan =
        resized-IsPlan (after_edit p key value entry h.plan selected clean)
          (edited_size p entry key (configuration_line key value))
          (after_edit-edited p key value entry h.plan selected clean).0;
    sized = size_right ∙ ap length (sym sized_edit-rendered);
  }

  set-cases : set p key value ≡ (
      if ltb config_write_limit (length target)
      then err "resulting configuration exceeds 16 MiB"
      else ok sized_edit)
  unfolding set set_entry
  set-cases = rw (selected, set, clean, size_right)

  rewrite-target : rewrite_config (rendered p) key value ≡ capped target
  rewrite-target =
      rewrite_config-edited (rendered p) key value
        (h.plan.indexed key entry selected).key_ok.no_colon (clean_newline value clean)
      ∙ ap (λ (s : List Bytes × Bytes). capped (edited key (configuration_line key value) s.0 s.1))
          (split-rendered p h.plan)

set-unselected :
    (p : EditPlan) (key value : Bytes)
    → lookup key p.entries ≡ none
    → set p key value ≡ err "edit plan key was not selected"
unfolding set
set-unselected p key value o = rw (o, set)

set-dirty :
    (p : EditPlan) (key value : Bytes) (entry : EditEntry)
    → lookup key p.entries ≡ some entry
    → bad_value_byte value ≡ true
    → set p key value ≡ err "edit plan value must round-trip on a single physical line"
unfolding set
set-dirty p key value entry o d = rw (o, set, d)

-- An edit succeeds only for a selected key and a value free of NUL, CR, LF and quotes.
pub set-eq-ok :
    (p q : EditPlan) (key value : Bytes)
    → set p key value ≡ ok q
    → (entry : EditEntry) × (lookup key p.entries ≡ some entry) × (bad_value_byte value ≡ false)
set-eq-ok p q key value h = elim (Option-cases (lookup key p.entries)) [
  | inl o ↦ cc (set-unselected p key value o)
  | inr (entry, o) ↦ elim (Bool-cases (bad_value_byte value)) [
    | inl d ↦ cc (set-dirty p key value entry o d)
    | inr c ↦ (entry, o, c)
  ]
]

ok_branch {ℓ} :
    {A : Type ℓ} (b : Bool) (e : String) (x y : A)
    → (if b then err e else ok x) ≡ ok y
    → (x ≡ y) × (b ≡ false)
ok_branch true e x y h = cc
ok_branch false e x y h = (cc, refl)

-- An accepted edit keeps a plan well formed with its size that of its text.
pub set-IsSized :
    (p q : EditPlan) (key value : Bytes) → IsSized p → set p key value ≡ ok q → IsSized q
set-IsSized p q key value h e =
    let (entry, o, c) = set-eq-ok p q key value e in
    subst IsSized (ok_branch _ _ _ _ (sym (set-cases p key value entry h o c) ∙ e)).0
      (sized_edit-IsSized p key value entry h o c)

capped_branch : (d e : Bytes) → d ≡ e → ltb config_write_limit (length d) ≡ false → capped d ≡ ok e
capped_branch d e p h = rw (h, p)

-- An accepted edit is the rewrite of the text that the plan stands for.
pub set-rewrites :
    (p q : EditPlan) (key value : Bytes)
    → IsSized p
    → set p key value ≡ ok q
    → rewrite_config (rendered p) key value ≡ ok (rendered q)
set-rewrites p q key value h e =
    let (entry, o, c) = set-eq-ok p q key value e in
    let (same, short) = ok_branch _ _ _ _ (sym (set-cases p key value entry h o c) ∙ e) in
    rewrite-target p key value entry h o c
    ∙ capped_branch (target p key value entry h o c) (rendered q)
        (sym (sized_edit-rendered p key value entry h o c) ∙ ap rendered same) short

capped_bind :
    (b : Bool) (e : String) (q : EditPlan) (d : Bytes)
    → bytes q ≡ ok d
    → ((if b then err e else ok q) >>= bytes) ≡ (if b then err e else ok d)
capped_bind true e q d h = refl
capped_bind false e q d h = h

-- For a plan that is well formed with its size that of its text, a selected key and a value free
-- of NUL, CR, LF and quotes, editing the plan and rendering it gives what one rewrite of the
-- rendered text gives, the result or the refusal of one that is too long.
pub set-bytes :
    (p : EditPlan) (key value : Bytes) (entry : EditEntry)
    → IsSized p
    → lookup key p.entries ≡ some entry
    → bad_value_byte value ≡ false
    → (set p key value >>= bytes) ≡ rewrite_config (rendered p) key value
set-bytes p key value entry h o c =
    ap (λ (r : Result EditPlan). r >>= bytes) (set-cases p key value entry h o c)
    ∙ capped_bind _ _ (sized_edit p key value entry h o c) (target p key value entry h o c) (
        bytes-rendered (sized_edit p key value entry h o c)
          (sized_edit-IsSized p key value entry h o c)
        ∙ ap ok (sized_edit-rendered p key value entry h o c))
    ∙ sym (rewrite-target p key value entry h o c)

pub set-selected :
    (p q : EditPlan) (key value other : Bytes)
    → IsSized p
    → set p key value ≡ ok q
    → is_some (lookup other q.entries) ≡ is_some (lookup other p.entries)
set-selected p q key value other h e =
    let (entry, o, c) = set-eq-ok p q key value e in
    ap (λ (r : EditPlan). is_some (lookup other r.entries))
      (sym (ok_branch _ _ _ _ (sym (set-cases p key value entry h o c) ∙ e)).0)
    ∙ either (matching_rows p entry key == 0) p key value entry other o
  where
    either :
        (b : Bool) (p : EditPlan) (key value : Bytes) (entry : EditEntry) (other : Bytes)
        → lookup key p.entries ≡ some entry
        → is_some (
            lookup other
              (if b
                then add_line p key (configuration_line key value)
                else replace_lines p entry key (configuration_line key value)).entries)
          ≡ is_some (lookup other p.entries)
    either true p key value entry other o =
        selected-add_line p key (configuration_line key value) other
    either false p key value entry other o =
        selected-replace_lines p entry key (configuration_line key value) other o
