-- ===== src/Config/Edit/Positions.antt =====
-- The appended rows and the pointers into them: at most one row for each key, at its position.
use software_factory_templat.Base.{
  ℕ, suc, ◌≤◌, ◌*◌, true, false, Option, none, some, List, [], ◌∷◌, ◌++◌, map, ◌==◌, if◌then◌else◌,
  Bytes, bytes_eq, bytes_eq_iff, before, contains_byte, length, ◌≡◌, refl, sym, ap, arith,
  Bool-cases, inl, inr,
}
use software_factory_templat.Base.Assoc.{is_some}
use software_factory_templat.Config.Keys.{
  key_is, key_count, key_size, key_size_none, replace_all, replace_all_none,
}
use software_factory_templat.Config.Edit.{EditRow, row_at, write_row, line_of, one_if, tail_length}

abbrev pub next : Option ℕ → Option ℕ
next none = none
next (some i) = some (suc i)

-- Where the first row of the key stands.
abbrev pub position : Bytes → List Bytes → Option ℕ
position key [] = none
position key (r ∷ rs) = if key_is key r then some 0 else next (position key rs)

pub position-none : (key : Bytes) (rs : List Bytes) → key_count key rs ≡ 0 → position key rs ≡ none
position-none key [] h = refl
position-none key (r ∷ rs) h = ground (arith, position-none key rs)

row_at-next :
    (r : EditRow) (rs : List EditRow) (o : Option ℕ) → row_at (r ∷ rs) (next o) ≡ row_at rs o
row_at-next r rs none = refl
row_at-next r rs (some i) = refl

write_row-next :
    (r : EditRow) (rs : List EditRow) (o : Option ℕ) (x : EditRow)
    → write_row (r ∷ rs) (next o) x ≡ r ∷ write_row rs o x
write_row-next r rs none x = refl
write_row-next r rs (some i) x = refl

-- The pointer leads to a row exactly if one has the key.
pub row_at-count :
    (key : Bytes) (rs : List EditRow)
    → key_count key (map line_of rs) ≤ 1
    → one_if (is_some (row_at rs (position key (map line_of rs)))) ≡ key_count key (map line_of rs)
row_at-count key [] h = refl
row_at-count key (r ∷ rs) h = ground (
  arith,
  row_at-next r rs (position key (map line_of rs)),
  row_at-count key rs,
  position-none key (map line_of rs),
)

pub row_at-size :
    (key : Bytes) (rs : List EditRow)
    → key_count key (map line_of rs) ≤ 1
    → tail_length (row_at rs (position key (map line_of rs))) ≡ key_size key (map line_of rs)
row_at-size key [] h = refl
row_at-size key (r ∷ rs) h = ground (
  arith,
  row_at-next r rs (position key (map line_of rs)),
  row_at-size key rs,
  key_size_none key (map line_of rs),
)

-- A write through the pointer replaces every row of the key.
pub write_row-replace_all :
    (key : Bytes) (rs : List EditRow) (x : EditRow)
    → key_count key (map line_of rs) ≤ 1
    → map line_of (write_row rs (position key (map line_of rs)) x)
      ≡ replace_all key x.line (map line_of rs)
write_row-replace_all key [] x h = refl
write_row-replace_all key (r ∷ rs) x h = elim (Bool-cases (key_is key r.line)) [
  | inl e ↦
      rw e
        (ap (λ t. x.line ∷ t) (sym (replace_all_none key x.line (map line_of rs) (ground arith))))
  | inr e ↦
      rw (e, write_row-next r rs (position key (map line_of rs)) x)
        (ap (λ t. r.line ∷ t) (write_row-replace_all key rs x (ground arith)))
]

-- A new last row changes the position of its own key only.
pub position-concat :
    (key line : Bytes) (rs : List Bytes)
    → position key (rs ++ line ∷ []) ≡ (
        if key_count key rs == 0
        then (if key_is key line then some (length rs) else none)
        else position key rs)
position-concat key line [] = ground arith
position-concat key line (r ∷ rs) = ground (arith, position-concat key line rs)

-- A replacement keeps each row's key, if it keeps the key of the rows that it replaces.
module _ (key line : Bytes) (contains : contains_byte b':' line ≡ true)
    (same : before b':' line ≡ key) where
  key_is-replaced :
      (other r : Bytes) → key_is other (if key_is key r then line else r) ≡ key_is other r
  key_is-replaced other r = elim (Bool-cases (key_is key r)) [
    | inl e ↦ rw (e, contains, same) (ground (arith, bytes_eq_iff (before b':' r) key))
    | inr e ↦ rw e
  ]

  pub position-replace_all :
      (other : Bytes) (rs : List Bytes)
      → position other (replace_all key line rs) ≡ position other rs
  position-replace_all other [] = refl
  position-replace_all other (r ∷ rs) = rw (key_is-replaced other r, position-replace_all other rs)

  pub key_count-replace_all :
      (other : Bytes) (rs : List Bytes)
      → key_count other (replace_all key line rs) ≡ key_count other rs
  key_count-replace_all other [] = refl
  key_count-replace_all other (r ∷ rs) =
      rw (key_is-replaced other r, key_count-replace_all other rs)

  pub key_size-replace_all_self :
      (rs : List Bytes) → key_size key (replace_all key line rs) ≡ key_count key rs * length line
  key_size-replace_all_self [] = omega arith
  key_size-replace_all_self (r ∷ rs) =
      rw (key_is-replaced key r) (elim (Bool-cases (key_is key r)) [
        | inl e ↦ rw e (omega (arith, key_size-replace_all_self rs))
        | inr e ↦ rw e (omega (arith, key_size-replace_all_self rs))
      ])

  pub key_size-replace_all_ne :
      (other : Bytes) (rs : List Bytes)
      → bytes_eq key other ≡ false
      → key_size other (replace_all key line rs) ≡ key_size other rs
  key_size-replace_all_ne other [] h = refl
  key_size-replace_all_ne other (r ∷ rs) h =
      rw (key_is-replaced other r) (elim (Bool-cases (key_is key r)) [
        | inl e ↦
            rw e
              (ground (arith, bytes_eq_iff (before b':' r) key, key_size-replace_all_ne other rs h))
        | inr e ↦ rw (e, key_size-replace_all_ne other rs h)
      ])
