-- ===== src/Budget/History/Unique.antt =====
-- What a validated ledger satisfies.
use software_factory_templat.Base.{
  Bool, true, false, not, List, [], ◌∷◌, Bytes, codes, bytes_eq_iff, String, ok, refuse, >>=-eq-ok,
  All, ◌≡◌, ◌≢◌, refl, arith,
}
use software_factory_templat.Budget.Json.{
  Json, null, boolean, number, text, array, object, Items, nil, cons, Fields, get,
}
use software_factory_templat.Budget.Numbers.{Arithmetic, exact_integer}
use software_factory_templat.Budget.Domain.{one_of}
use software_factory_templat.Budget.History.{
  valid_record, id_of, validate_runs, validate_list, validate_history, is_one, item_rows, runs_of,
  rows,
}

-- No refusal means that the test failed.
pub refuse-eq-ok : (b : Bool) (e : String) {u : Unit {0}} → refuse b e ≡ ok u → b ≡ false
refuse-eq-ok true e h = cc
refuse-eq-ok false e h = refl

not-false : (b : Bool) → not b ≡ false → b ≡ true
not-false true h = refl
not-false false h = cc

module _ (a : Arithmetic) where
  -- No two rows have the same identity.
  abbrev pub IsDistinct : List Fields → Type 0
  IsDistinct [] = Unit
  IsDistinct (r ∷ rs) = All (λ s. id_of s ≢ id_of r) rs × IsDistinct rs

  -- Each row is valid, and the identities differ.
  pub record IsHistory (rs : List Fields) : Type 0 where
    pub valid : All (λ r. valid_record a r ≡ true) rs
    pub distinct : IsDistinct rs

  Avoids : List Bytes → List Fields → Type 0
  Avoids seen rs = All (λ r. one_of seen (id_of r) ≡ false) rs

  Avoids-rest :
      (x : Bytes) (seen : List Bytes) (rs : List Fields) → Avoids (x ∷ seen) rs → Avoids seen rs
  unfolding Avoids
  Avoids-rest x seen [] h = tt
  Avoids-rest x seen (r ∷ rs) h = (ground (arith, h.0), Avoids-rest x seen rs h.1)

  Avoids-head :
      (x : Bytes) (seen : List Bytes) (rs : List Fields)
      → Avoids (x ∷ seen) rs
      → All (λ s. id_of s ≢ x) rs
  unfolding Avoids
  Avoids-head x seen [] h = tt
  Avoids-head x seen (r ∷ rs) h =
      (ground (arith, h.0, bytes_eq_iff x (id_of r)), Avoids-head x seen rs h.1)

  validate_runs-IsHistory :
      (runs : Items) (seen : List Bytes)
      → validate_runs a runs seen ≡ ok tt
      → IsHistory (item_rows runs) × Avoids seen (item_rows runs)
  unfolding validate_runs Avoids
  validate_runs-IsHistory nil seen h = (record { valid = tt; distinct = tt }, tt)
  validate_runs-IsHistory (cons (object r) rest) seen h =
      let (u, good, h') = >>=-eq-ok (refuse (not (valid_record a r)) _) _ h in
      let (v, fresh, h'') = >>=-eq-ok (refuse (one_of seen (id_of r)) _) _ h' in
      let (later, apart) = validate_runs-IsHistory rest (id_of r ∷ seen) h'' in
      (
        record {
          valid = (not-false _ (refuse-eq-ok _ _ good), later.valid);
          distinct = (Avoids-head (id_of r) seen (item_rows rest) apart, later.distinct);
        },
        (refuse-eq-ok _ _ fresh, Avoids-rest (id_of r) seen (item_rows rest) apart),
      )
  validate_runs-IsHistory (cons null rest) seen h = cc
  validate_runs-IsHistory (cons (boolean b) rest) seen h = cc
  validate_runs-IsHistory (cons (number n) rest) seen h = cc
  validate_runs-IsHistory (cons (text s) rest) seen h = cc
  validate_runs-IsHistory (cons (array xs) rest) seen h = cc

  validate_list-IsHistory :
      (v : Json) → validate_list a v ≡ ok tt → IsHistory (item_rows (runs_of v))
  validate_list-IsHistory (array runs) h = (validate_runs-IsHistory runs [] h).0
  validate_list-IsHistory null h = cc
  validate_list-IsHistory (boolean b) h = cc
  validate_list-IsHistory (number n) h = cc
  validate_list-IsHistory (text s) h = cc
  validate_list-IsHistory (object m) h = cc

  -- A ledger that passes validation has only valid rows, no two with the same identity.
  pub validate_history-IsHistory : (h : Fields) → validate_history a h ≡ ok tt → IsHistory (rows h)
  unfolding validate_history
  validate_history-IsHistory h e =
      let (u, good, e') =
        >>=-eq-ok (refuse (not (is_one (exact_integer a (get h (codes "schema"))))) _) _ e in
      validate_list-IsHistory (get h (codes "runs")) e'
