-- ===== src/Budget/Ledger/Publish.antt =====
-- PublishPID never replaces a recorded process, and touches the owner's row only.
use mathlib.Core.Path.{subst}
use software_factory_templat.Base.{
  ℕ, Bool, true, false, not, ◌||◌, Option, some, List, [], ◌∷◌, String, Bytes, codes, if◌then◌else◌,
  Result, ok, err, refuse, >>=-eq-ok, eq_of_ok, ◌≡◌, refl, sym, ap, ◌⊎◌, inl, inr, Bool-cases,
}
use software_factory_templat.Budget.Json.{
  array, Items, nil, cons, Fields, get, put, is_null, get-put,
}
use software_factory_templat.Budget.Numbers.{Arithmetic}
use software_factory_templat.Budget.Domain.{valid_id}
use software_factory_templat.Budget.History.{fields_of, item_rows, runs_of, rows, validate_history}
use software_factory_templat.Budget.Ledger.{
  has_id, bad_pid, pid_number, write_first, write_row, is_owner, find_owner, owner_record,
  is_bad_input, reconcile_pid, write, publish_new, publish_pid,
}

module _ (a : Arithmetic) (own : ℕ) (id : Bytes) (pid : ℕ) where
  -- The row is as before; or it is the owner's active row with no process, and now has the process.
  abbrev pub IsKept : Fields → Fields → Type 0
  IsKept r s =
      (s ≡ r)
      ⊎ ((has_id id r ≡ true)
          × (is_owner a own r ≡ true)
          × (is_null (get r (codes "process_pid")) ≡ true)
          × (s ≡ put r (codes "process_pid") (pid_number (some pid))))

  abbrev pub AllKept : List Fields → List Fields → Type 0
  AllKept [] [] = Unit
  AllKept [] (s ∷ ss) = ⊥
  AllKept (r ∷ rs) [] = ⊥
  AllKept (r ∷ rs) (s ∷ ss) = IsKept r s × AllKept rs ss

  AllKept-refl : (rs : List Fields) → AllKept rs rs
  AllKept-refl [] = tt
  AllKept-refl (r ∷ rs) = (inl refl, AllKept-refl rs)

  owner-found :
      (b : Bool) (e : String) (r s : Fields)
      → (if b then ok r else err e) ≡ ok s
      → (b ≡ true) × (r ≡ s)
  owner-found true e r s h = (refl, eq_of_ok h)
  owner-found false e r s h = cc

  write_first-AllKept :
      (vs : Items) (r : Fields)
      → find_owner a own id (item_rows vs) ≡ ok r
      → is_null (get r (codes "process_pid")) ≡ true
      → AllKept
          (item_rows vs)
          (item_rows (write_first id (put r (codes "process_pid") (pid_number (some pid))) vs))
  unfolding find_owner
  write_first-AllKept nil r h n = tt
  write_first-AllKept (cons v vs) r h n = elim (Bool-cases (has_id id (fields_of v))) [
    | inl e ↦
        let (owned, same) =
          owner-found (is_owner a own (fields_of v)) _ (fields_of v) r (rw e at h) in
        rw e (
          (
            inr (
                (
                  e,
                  owned,
                  rw same n,
                  ap (λ (x : Fields). put x (codes "process_pid") (pid_number (some pid)))
                      (sym same),
                )),
            AllKept-refl (item_rows vs),
          ))
    | inr e ↦ rw e ((inl refl, write_first-AllKept vs r (rw e at h) n))
  ]

  write_row-AllKept :
      (h r : Fields)
      → find_owner a own id (rows h) ≡ ok r
      → is_null (get r (codes "process_pid")) ≡ true
      → AllKept
          (rows h)
          (rows (write_row id (put r (codes "process_pid") (pid_number (some pid))) h))
  write_row-AllKept h r found n =
      rw
        (get-put h (codes "runs") (codes "runs") (
          array (
            write_first id (put r (codes "process_pid") (pid_number (some pid)))
              (runs_of (get h (codes "runs"))))))
        (write_first-AllKept (runs_of (get h (codes "runs"))) r found n)

  reconcile-none :
      (r : Fields) (effective : Option ℕ)
      → is_null (get r (codes "process_pid")) ≡ true
      → reconcile_pid a r (some pid) ≡ ok effective
      → effective ≡ some pid
  unfolding reconcile_pid
  reconcile-none r effective n h =
      let (u, good, h') = >>=-eq-ok (refuse (is_bad_input (some pid)) _) _ h in
      sym (eq_of_ok (rw n at h'))

  module _ (encoded_length : Fields → ℕ) (publish : Fields → Result (Unit {0})) where
    write-valid :
        (h : Fields) {u : Unit {0}}
        → write a encoded_length publish h ≡ ok u
        → validate_history a h ≡ ok tt
    unfolding write
    write-valid h e = (>>=-eq-ok (validate_history a h) _ e).1

    finish-AllKept :
        (h r row later : Fields) (effective : Option ℕ)
        → find_owner a own id (rows h) ≡ ok r
        → validate_history a h ≡ ok tt
        → reconcile_pid a r (some pid) ≡ ok effective
        → (if is_null (get r (codes "process_pid"))
            then publish_new a encoded_length publish h id r effective
            else ok (r, h))
          ≡ ok (row, later)
        → AllKept (rows h) (rows later) × (validate_history a later ≡ ok tt)
    finish-AllKept h r row later effective found valid agreed e =
        elim (Bool-cases (is_null (get r (codes "process_pid")))) [
          | inl n ↦
              let new = put r (codes "process_pid") (pid_number (some pid)) in
              let same = reconcile-none r effective n agreed in
              let (u, wrote, made) =
                >>=-eq-ok (write a encoded_length publish (write_row id new h)) _
                  (rw (n, same) at e) in
              subst (λ (x : Fields). AllKept (rows h) (rows x) × (validate_history a x ≡ ok tt))
                (ap (λ (x : Fields × Fields). x.1) (eq_of_ok made))
                ((write_row-AllKept h r found n, write-valid (write_row id new h) wrote))
          | inr n ↦
              subst (λ (x : Fields). AllKept (rows h) (rows x) × (validate_history a x ≡ ok tt))
                (ap (λ (x : Fields × Fields). x.1) (eq_of_ok (rw n at e)))
                ((AllKept-refl (rows h), valid))
        ]

    -- A publication that succeeds leaves a ledger that passes validation, in which each row is as
    -- before, except that an active row of that identity and owner that had no process may now
    -- have it.
    pub publish_pid-AllKept :
        (h row later : Fields)
        → publish_pid a encoded_length publish own h id pid ≡ ok (row, later)
        → AllKept (rows h) (rows later) × (validate_history a later ≡ ok tt)
    unfolding publish_pid owner_record
    publish_pid-AllKept h row later e =
        let (u0, fine, e0) = >>=-eq-ok (refuse (not (valid_id id) || bad_pid pid) _) _ e in
        let (u1, valid, e1) = >>=-eq-ok (validate_history a h) _ e0 in
        let (r, found, e2) = >>=-eq-ok (owner_record a own h id) _ e1 in
        let (effective, agreed, e3) = >>=-eq-ok (reconcile_pid a r (some pid)) _ e2 in
        let (u2, named, owner) = >>=-eq-ok (refuse (not (valid_id id)) _) _ found in
        finish-AllKept h r row later effective owner valid agreed e3
