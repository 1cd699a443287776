-- ===== src/Config/Edit/Sizes.antt =====
-- What `Set` counts and measures is what the text of the plan has.
use software_factory_templat.Base.{
  ℕ, ◌+◌, ◌*◌, Bool, true, false, Option, none, some, List, [], ◌∷◌, ◌++◌, ◌==◌, if◌then◌else◌,
  Bytes, bytes_eq, bytes_eq_iff, before, contains_byte, length, length-append, ◌≡◌, refl, ap, ◌∙◌,
  arith, Bool-cases, Option-cases, inl, inr, ==_iff,
}
use software_factory_templat.Base.Rows.{join_rows}
use software_factory_templat.Base.Assoc.{lookup, is_some}
use software_factory_templat.Config.Keys.{
  key_is, key_count, key_size, key_count-append, key_size-append, replace_all, length-replace_all,
}
use software_factory_templat.Config.Write.Total.{matches, edited, replaced}
use software_factory_templat.Config.Edit.{
  EditEntry, EditRow, EditPlan, appended_row, one_if, shown, tail_matches, tail_length, rendered,
  matching_rows, matching_size, edited_size,
}
use software_factory_templat.Config.Edit.Plan.{
  shown_rows, appended_lines, tail_rows, tail_rest, display_rows, display_rest, IsTail, IsPlan,
  rendered-display, row-key, shown_as-key,
}
use software_factory_templat.Config.Edit.Positions.{row_at-count, row_at-size}

pub shown-key :
    (p : EditPlan) (key line : Bytes)
    → IsPlan p
    → key_is key (shown p.entries line) ≡ key_is key line
unfolding shown
shown-key p key line h = elim (Bool-cases (contains_byte b':' line)) [
  | inr e ↦ rw e (rw e)
  | inl e ↦ elim (Option-cases (lookup (before b':' line) p.entries)) [
    | inl o ↦ rw (e, o) (rw e)
    | inr (entry, o) ↦ elim (Bool-cases entry.replaced) [
      | inr q ↦ rw (e, o, q) (rw e)
      | inl q ↦
          rw (e, o, q)
            (let i = h.indexed (before b':' line) entry o in
              shown_as-key key line (before b':' line) entry
                (ground (arith, bytes_eq_iff (before b':' line) (before b':' line))) (i.colon q)
                (i.kept q)
              ∙ rw e)
    ]
  ]
]

-- The last row, terminated or not, counts as a row of its key.
tail-count :
    (entries : List (Bytes × EditEntry)) (key : Bytes) (t : Option EditRow)
    → is_some (lookup key entries) ≡ true
    → bytes_eq key [] ≡ false
    → IsTail entries t
    → one_if (tail_matches t key)
      ≡ key_count key (tail_rows t) + (if key_is key (tail_rest t) then 1 else 0)
tail-count entries key none h k o = refl
tail-count entries key (some t) h k o = ground (
  arith,
  ap (λ (r : EditRow). bytes_eq r.key key) o.0,
  row-key entries key t.line t.terminated h k,
)

tail-size :
    (entries : List (Bytes × EditEntry)) (key : Bytes) (t : Option EditRow)
    → is_some (lookup key entries) ≡ true
    → bytes_eq key [] ≡ false
    → IsTail entries t
    → (if tail_matches t key then tail_length t else 0)
      ≡ key_size key (tail_rows t) + (if key_is key (tail_rest t) then length (tail_rest t) else 0)
tail-size entries key none h k o = refl
tail-size entries key (some t) h k o = ground (
  arith,
  ap (λ (r : EditRow). bytes_eq r.key key) o.0,
  row-key entries key t.line t.terminated h k,
)

module _ (p : EditPlan) (key : Bytes) (entry : EditEntry) (h : IsPlan p)
    (selected : lookup key p.entries ≡ some entry) where
  here : is_some (lookup key p.entries) ≡ true
  here = rw selected

  pub matching_rows-matches :
      matching_rows p entry key ≡ matches key (display_rows p) (display_rest p)
  unfolding matching_rows appended_row
  matching_rows-matches =
      let i = h.indexed key entry selected in
      rw i.placed (
        omega (
          arith,
          i.counted,
          row_at-count key p.appended i.once,
          tail-count p.entries key p.tail here i.key_ok.not_empty h.tail_ok,
          key_count-append key (shown_rows p) (tail_rows p.tail ++ appended_lines p),
          key_count-append key (tail_rows p.tail) (appended_lines p),
        ))

  pub matching_size-key_size :
      matching_size p entry key
      ≡ key_size key (display_rows p)
        + (if key_is key (display_rest p) then length (display_rest p) else 0)
  unfolding matching_size appended_row
  matching_size-key_size =
      let i = h.indexed key entry selected in
      rw i.placed (
        omega (
          arith,
          i.measured,
          row_at-size key p.appended i.once,
          tail-size p.entries key p.tail here i.key_ok.not_empty h.tail_ok,
          key_size-append key (shown_rows p) (tail_rows p.tail ++ appended_lines p),
          key_size-append key (tail_rows p.tail) (appended_lines p),
        ))

-- The length of a replacement in rows and a rest.
pub length-replaced :
    (key line : Bytes) (rows : List Bytes) (rest : Bytes)
    → length (replaced key line rows rest)
        + (key_size key rows + (if key_is key rest then length rest else 0))
      ≡ length (join_rows rows ++ rest) + matches key rows rest * length line
length-replaced key line rows rest = ground (
  arith,
  length-append (join_rows (replace_all key line rows)) (if key_is key rest then line else rest),
  length-append (join_rows rows) rest,
  length-replace_all key line rows,
)

key_size_none_all :
    (key : Bytes) (rows : List Bytes) (rest : Bytes)
    → matches key rows rest ≡ 0
    → key_size key rows + (if key_is key rest then length rest else 0) ≡ 0
key_size_none_all key [] rest h = ground arith
key_size_none_all key (r ∷ rs) rest h = ground (arith, key_size_none_all key rs rest)

length-if :
    (b : Bool) (x y : Bytes) → length (if b then x else y) ≡ (if b then length x else length y)
length-if true x y = refl
length-if false x y = refl

-- The size that an edit computes is the length of the text after the edit.
pub edited_size-length :
    (p : EditPlan) (key line : Bytes) (entry : EditEntry)
    → IsPlan p
    → lookup key p.entries ≡ some entry
    → p.size ≡ length (rendered p)
    → edited_size p entry key line ≡ length (edited key line (display_rows p) (display_rest p))
unfolding edited_size
edited_size-length p key line entry h selected sized =
    let total = ap length (rendered-display p h) in
    let grows = length-replaced key line (display_rows p) (display_rest p) in
    rw
      (
        matching_rows-matches p key entry h selected,
        matching_size-key_size p key entry h selected,
        length-if (matches key (display_rows p) (display_rest p) == 0)
            (replaced key line (display_rows p) (display_rest p) ++ (line ++ b'\n' ∷ []))
            (replaced key line (display_rows p) (display_rest p)),
      )
      (elim (Bool-cases (matches key (display_rows p) (display_rest p) == 0)) [
        | inl e ↦ rw e (
            omega (
              arith,
              total,
              grows,
              sized,
              ap (λ (n : ℕ). n * length line) ((==_iff _ 0).0 e),
              key_size_none_all key (display_rows p) (display_rest p) ((==_iff _ 0).0 e),
              (==_iff (matches key (display_rows p) (display_rest p)) 0).0 e,
              length-append (replaced key line (display_rows p) (display_rest p))
                  (line ++ b'\n' ∷ []),
              length-append line (b'\n' ∷ []),
            ))
        | inr e ↦ rw e (omega (arith, total, grows, sized))
      ])
