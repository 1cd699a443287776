-- ===== src/Config/Edit/Adding.antt =====
-- The edit of a key that no row has.
use software_factory_templat.Base.{
  ℕ, suc, Bool, true, false, Option, none, some, List, [], ◌∷◌, ◌++◌, map, if◌then◌else◌, Bytes,
  bytes_eq, bytes_eq_iff, length, All-append, ◌≡◌, refl, sym, ap, ◌∙◌, arith, Bool-cases, inl, inr,
  append-nil, append_assoc, ◌⊎◌,
}
use software_factory_templat.Base.Rows.{join_rows, IsRow}
use software_factory_templat.Base.Assoc.{lookup, insert, lookup-insert, is_some}
use software_factory_templat.Config.Keys.{
  key_is, key_count, key_count-append, join_rows-append, contains_byte-append,
}
use software_factory_templat.Config.Edit.{
  EditEntry, EditRow, EditPlan, row, append_line, add_line, line_of, rendered,
}
use software_factory_templat.Config.Edit.Plan.{
  shown_rows, appended_lines, tail_rows, tail_rest, display_rows, display_rest, is_open, IsIndexed,
  IsTail, IsAppended, IsPlan, rendered-display,
}
use software_factory_templat.Config.Edit.Positions.{position, position-none, position-concat}
use software_factory_templat.Config.Edit.Rows.{line-row, terminated-row, row-row}

add_line-closed :
    (p : EditPlan) (key line : Bytes)
    → is_open p.tail ≡ false
    → add_line p key line ≡ append_line p key line
unfolding add_line
add_line-closed p key line h = ground arith

abbrev extended : EditPlan → EditRow → Bytes → EditPlan
extended p t line = record p { tail = some (row p.entries (t.line ++ line) true) }

add_line-open :
    (p : EditPlan) (key line : Bytes) (t : EditRow)
    → p.tail ≡ some t
    → t.terminated ≡ false
    → add_line p key line ≡ extended p t line
unfolding add_line
add_line-open p key line t h k = ground arith

length-map : (rs : List EditRow) → length (map line_of rs) ≡ length rs
length-map [] = refl
length-map (r ∷ rs) = ap suc (length-map rs)

map-concat :
    (rs : List EditRow) (r : EditRow) → map line_of (rs ++ r ∷ []) ≡ map line_of rs ++ r.line ∷ []
map-concat [] r = refl
map-concat (x ∷ rs) r = ap (λ t. x.line ∷ t) (map-concat rs r)

-- The new row's pointer is its position.
placed-concat :
    (key other line : Bytes) (by_key : List (Bytes × ℕ)) (rs : List Bytes)
    → lookup other by_key ≡ position other rs
    → key_is other line ≡ bytes_eq key other
    → key_count key rs ≡ 0
    → lookup other (insert key (length rs) by_key) ≡ position other (rs ++ line ∷ [])
placed-concat key other line by_key rs h k z =
    rw (lookup-insert key other (length rs) by_key, position-concat other line rs, k)
      (elim (Bool-cases (bytes_eq key other)) [
        | inl e ↦ rw e (rw (← (bytes_eq_iff key other).0 e, z) refl)
        | inr e ↦ rw e (ground (arith, position-none other rs))
      ])

shut_rest : (t : Option EditRow) → is_open t ≡ false → tail_rest t ≡ []
shut_rest none h = refl
shut_rest (some t) h = ground arith

regroup : (a b c d : List Bytes) → a ++ (b ++ (c ++ d)) ≡ (a ++ (b ++ c)) ++ d
regroup a b c d = simp append_assoc

open-IsRow :
    (entries : List (Bytes × EditEntry)) (o : Option EditRow) (t : EditRow)
    → o ≡ some t
    → IsTail entries o
    → IsRow t.line
open-IsRow entries none t e h = cc
open-IsRow entries (some s) t e h = ground arith

extended_display :
    (rows : List Bytes) (o : Option EditRow) (rest : List EditRow) (t : EditRow) (line l : Bytes)
    (b : Bool)
    → o ≡ some t
    → t.terminated ≡ false
    → rest ≡ []
    → l ≡ t.line ++ line
    → b ≡ true
    → join_rows (rows ++ ((if b then l ∷ [] else []) ++ map line_of rest)) ++ (if b then [] else l)
      ≡ join_rows (rows ++ (tail_rows o ++ map line_of rest))
        ++ (tail_rest o ++ (line ++ b'\n' ∷ []))
extended_display rows none rest t line l b e k c f g = cc
extended_display rows (some s) (x ∷ xs) t line l b e k c f g = cc
extended_display rows (some s) [] t line l b e k c f g =
    let still : s.terminated ≡ false = ground arith in
    let same : s.line ≡ t.line = ground arith in
    rw (g, f, still, same, append-nil, append-nil, join_rows-append rows ((t.line ++ line) ∷ []))
      (simp (append_assoc, append-nil))

is_open-some :
    (o : Option EditRow) (t : EditRow) → o ≡ some t → t.terminated ≡ false → is_open o ≡ true
is_open-some o t e k = ground arith

open-cases :
    (o : Option EditRow)
    → (is_open o ≡ false) ⊎ ((t : EditRow) × (o ≡ some t) × (t.terminated ≡ false))
open-cases none = inl refl
open-cases (some t) = elim (Bool-cases t.terminated) [
  | inl e ↦ inl (rw e)
  | inr e ↦ inr (t, refl, e)
]

closed_row : (r : EditRow) → r.terminated ≡ true → is_open (some r) ≡ true → ⊥
closed_row r h k = ground arith

module _ (p : EditPlan) (key line : Bytes) (h : IsPlan p) (is_row : IsRow line)
    (keyed : (other : Bytes) → key_is other line ≡ bytes_eq key other)
    (absent : key_count key (appended_lines p) ≡ 0) where
  new_line : map line_of (append_line p key line).appended ≡ appended_lines p ++ line ∷ []
  new_line = map-concat p.appended (row p.entries line true) ∙ rw (line-row p.entries line true)

  append_line-IsIndexed :
      (other : Bytes) (entry : EditEntry)
      → lookup other p.entries ≡ some entry
      → IsIndexed (append_line p key line) other entry
  append_line-IsIndexed other entry selected =
      let i = h.indexed other entry selected in
      record {
        key_ok = i.key_ok;
        counted = i.counted;
        measured = i.measured;
        placed =
            rw (new_line, ← length-map p.appended)
              (placed-concat key other line p.by_key (appended_lines p) i.placed (keyed other)
                absent);
        once =
            rw (new_line, key_count-append other (appended_lines p) (line ∷ []), keyed other)
              (elim (Bool-cases (bytes_eq key other)) [
                | inl e ↦ rw e (rw (← (bytes_eq_iff key other).0 e, absent) (omega arith))
                | inr e ↦ rw e (omega (arith, i.once))
              ]);
        colon = i.colon;
        kept = i.kept;
      }

  append_line-IsPlan : is_open p.tail ≡ false → IsPlan (append_line p key line)
  append_line-IsPlan shut = record {
    indexed = append_line-IsIndexed;
    rows_ok = h.rows_ok;
    tail_ok = h.tail_ok;
    appended_ok =
        All-append (IsAppended p.entries) p.appended (row p.entries line true ∷ []) h.appended_ok (
          (
            ap (λ l. row p.entries l true) (sym (line-row p.entries line true)),
            rw (line-row p.entries line true) is_row,
          ),
          tt,
        );
    closed = λ open_tail. cc;
  }

  append_line-rendered :
      is_open p.tail ≡ false
      → rendered (append_line p key line)
        ≡ join_rows (display_rows p) ++ (display_rest p ++ (line ++ b'\n' ∷ []))
  append_line-rendered shut =
      rendered-display (append_line p key line) (append_line-IsPlan shut)
      ∙ rw (new_line, shut_rest p.tail shut)
          (ap (λ (t : Bytes). t ++ [])
              (ap join_rows
                  (regroup (shown_rows p) (tail_rows p.tail) (appended_lines p) (line ∷ []))
                ∙ join_rows-append (display_rows p) (line ∷ []))
            ∙ append-nil _)

  extended-IsPlan :
      (t : EditRow) → p.tail ≡ some t → t.terminated ≡ false → IsPlan (extended p t line)
  extended-IsPlan t e k =
      let r = row p.entries (t.line ++ line) true in
      record {
        indexed = λ other entry selected.
            let i = h.indexed other entry selected in
            record {
              key_ok = i.key_ok;
              counted = i.counted;
              measured = i.measured;
              placed = i.placed;
              once = i.once;
              colon = i.colon;
              kept = i.kept;
            };
        rows_ok = h.rows_ok;
        tail_ok = (
          row-row p.entries (t.line ++ line) true,
          rw (line-row p.entries (t.line ++ line) true, contains_byte-append b'\n' t.line line)
              (rw (open-IsRow p.entries p.tail t e h.tail_ok, is_row)),
        );
        appended_ok = h.appended_ok;
        closed = λ o. absurd (
            closed_row (row p.entries (t.line ++ line) true)
              (terminated-row p.entries (t.line ++ line) true) o);
      }

  extended-rendered :
      (t : EditRow)
      → p.tail ≡ some t
      → t.terminated ≡ false
      → rendered (extended p t line)
        ≡ join_rows (display_rows p) ++ (display_rest p ++ (line ++ b'\n' ∷ []))
  extended-rendered t e k =
      rendered-display (extended p t line) (extended-IsPlan t e k)
      ∙ extended_display (shown_rows p) p.tail p.appended t line
          (row p.entries (t.line ++ line) true).line
          (row p.entries (t.line ++ line) true).terminated e k
          (h.closed (is_open-some p.tail t e k)) (line-row p.entries (t.line ++ line) true)
          (terminated-row p.entries (t.line ++ line) true)

  -- The new line stands behind the text, and the plan still describes what it stands for.
  pub add_line-adds :
      IsPlan (add_line p key line)
      × (rendered (add_line p key line)
          ≡ join_rows (display_rows p) ++ (display_rest p ++ (line ++ b'\n' ∷ [])))
  add_line-adds = elim (open-cases p.tail) [
    | inl shut ↦
        rw (add_line-closed p key line shut) (append_line-IsPlan shut, append_line-rendered shut)
    | inr (t, e, k) ↦
        rw (add_line-open p key line t e k) (extended-IsPlan t e k, extended-rendered t e k)
  ]

pub selected-add_line :
    (p : EditPlan) (key line other : Bytes)
    → is_some (lookup other (add_line p key line).entries) ≡ is_some (lookup other p.entries)
unfolding add_line
selected-add_line p key line other = ground arith
