-- ===== src/Loop/History/Pairs.antt =====
-- What validated checkpoints satisfy, and that Lookup finds the only row of a run.
use software_factory_templat.Base.{
  Bool, true, false, not, ◌&&◌, ◌||◌, List, [], ◌∷◌, Bytes, codes, bytes_eq, bytes_eq_iff, ok,
  refuse, >>=-eq-ok, eq_of_ok, ap, subst, All, ◌≡◌, refl, arith, Bool-cases, inl, inr,
}
use software_factory_templat.Budget.Json.{
  Json, null, boolean, number, text, array, object, Items, nil, cons, Fields, get, text_eq,
}
use software_factory_templat.Budget.Numbers.{Arithmetic}
use software_factory_templat.Budget.History.{is_one, item_rows, runs_of, rows}
use software_factory_templat.Budget.History.Unique.{refuse-eq-ok}
use software_factory_templat.Budget.Domain.{valid_id}
use software_factory_templat.Loop.History.{
  is_run, session_of, task_of, is_seen, find_run, valid_checkpoint, validate_checkpoint_runs,
  integer, validate_checkpoint_list, validate_checkpoints, lookup,
}

pub text_eq_sound : (v : Json) (s : Bytes) → text_eq v s ≡ true → v ≡ text s
text_eq_sound (text t) s h = ap (λ x. text x) (ground (arith, h, bytes_eq_iff t s))
text_eq_sound null s h = absurd (ground (arith, h))
text_eq_sound (boolean b) s h = absurd (ground (arith, h))
text_eq_sound (number n) s h = absurd (ground (arith, h))
text_eq_sound (array xs) s h = absurd (ground (arith, h))
text_eq_sound (object m) s h = absurd (ground (arith, h))

abbrev pub is_same_run : Fields → Fields → Bool
is_same_run r q = bytes_eq (session_of r) (session_of q) && bytes_eq (task_of r) (task_of q)

abbrev pub IsDistinct : List Fields → Type 0
IsDistinct [] = Unit
IsDistinct (r ∷ rs) = All (λ q. is_same_run r q ≡ false) rs × IsDistinct rs

or_not-false : (x y : Bool) → (x || not y) ≡ false → (x ≡ false) × (y ≡ true)
or_not-false x y h = (ground (arith, h), ground (arith, h))

module _ (a : Arithmetic) where
  -- Each row is valid, and no two are of the same run.
  pub record IsCheckpoints (rs : List Fields) : Type 0 where
    pub valid : All (λ r. valid_checkpoint a r ≡ true) rs
    pub distinct : IsDistinct rs

  Avoids : List (Bytes × Bytes) → List Fields → Type 0
  Avoids seen rs = All (λ r. is_seen seen r ≡ false) rs

  Avoids-rest :
      (r : Fields) (seen : List (Bytes × Bytes)) (rs : List Fields)
      → Avoids ((session_of r, task_of r) ∷ seen) rs
      → Avoids seen rs × All (λ q. is_same_run r q ≡ false) rs
  unfolding Avoids
  Avoids-rest r seen [] h = (tt, tt)
  Avoids-rest r seen (q ∷ rs) h =
      let (later, apart) = Avoids-rest r seen rs h.1 in
      ((ground (arith, h.0), later), (ground (arith, h.0), apart))

  validate_checkpoint_runs-IsCheckpoints :
      (runs : Items) (seen : List (Bytes × Bytes))
      → validate_checkpoint_runs a runs seen ≡ ok tt
      → IsCheckpoints (item_rows runs) × Avoids seen (item_rows runs)
  unfolding validate_checkpoint_runs Avoids
  validate_checkpoint_runs-IsCheckpoints nil seen h = (record { valid = tt; distinct = tt }, tt)
  validate_checkpoint_runs-IsCheckpoints (cons (object r) rest) seen h =
      let (u, good, h') = >>=-eq-ok (refuse (is_seen seen r || not (valid_checkpoint a r)) _) _ h in
      let passed = or_not-false (is_seen seen r) (valid_checkpoint a r) (refuse-eq-ok _ _ good) in
      let (later, apart) =
        validate_checkpoint_runs-IsCheckpoints rest ((session_of r, task_of r) ∷ seen) h' in
      let (earlier, differ) = Avoids-rest r seen (item_rows rest) apart in
      (
        record { valid = (passed.1, later.valid); distinct = (differ, later.distinct) },
        (passed.0, earlier),
      )
  validate_checkpoint_runs-IsCheckpoints (cons null rest) seen h = cc
  validate_checkpoint_runs-IsCheckpoints (cons (boolean b) rest) seen h = cc
  validate_checkpoint_runs-IsCheckpoints (cons (number n) rest) seen h = cc
  validate_checkpoint_runs-IsCheckpoints (cons (text s) rest) seen h = cc
  validate_checkpoint_runs-IsCheckpoints (cons (array xs) rest) seen h = cc

  validate_checkpoint_list-IsCheckpoints :
      (v : Json) → validate_checkpoint_list a v ≡ ok tt → IsCheckpoints (item_rows (runs_of v))
  validate_checkpoint_list-IsCheckpoints (array runs) h =
      (validate_checkpoint_runs-IsCheckpoints runs [] h).0
  validate_checkpoint_list-IsCheckpoints null h = cc
  validate_checkpoint_list-IsCheckpoints (boolean b) h = cc
  validate_checkpoint_list-IsCheckpoints (number n) h = cc
  validate_checkpoint_list-IsCheckpoints (text s) h = cc
  validate_checkpoint_list-IsCheckpoints (object m) h = cc

  -- Checkpoints that pass validation have only valid rows, no two of the same session and task.
  pub validate_checkpoints-IsCheckpoints :
      (h : Fields) → validate_checkpoints a h ≡ ok tt → IsCheckpoints (rows h)
  unfolding validate_checkpoints
  validate_checkpoints-IsCheckpoints h e =
      let (u, good, e1) =
        >>=-eq-ok (refuse (not (is_one (integer a (get h (codes "schema"))))) _) _ e in
      let (v, valid, e2) = >>=-eq-ok (validate_checkpoint_list a (get h (codes "runs"))) _ e1 in
      validate_checkpoint_list-IsCheckpoints (get h (codes "runs")) valid

  abbrev pub IsOnly : Bytes → Bytes → Fields → List Fields → Type 0
  IsOnly session task row rs =
      (is_run session task row ≡ true)
      × (valid_checkpoint a row ≡ true)
      × All (λ q. is_run session task q ≡ true → q ≡ row) rs

  same_run :
      (session task : Bytes) (r q : Fields)
      → is_run session task r ≡ true
      → is_run session task q ≡ true
      → is_same_run r q ≡ true
  same_run session task r q h k =
      let rs : get r (codes "session") ≡ text session =
        text_eq_sound _ session (ground (arith, h)) in
      let rt : get r (codes "task") ≡ text task = text_eq_sound _ task (ground (arith, h)) in
      let qs : get q (codes "session") ≡ text session =
        text_eq_sound _ session (ground (arith, k)) in
      let qt : get q (codes "task") ≡ text task = text_eq_sound _ task (ground (arith, k)) in
      rw rs (
        rw rt
          (rw qs (rw qt (ground (arith, bytes_eq_iff session session, bytes_eq_iff task task)))))

  others_differ :
      (session task : Bytes) (r : Fields) (rs : List Fields)
      → is_run session task r ≡ true
      → All (λ q. is_same_run r q ≡ false) rs
      → All (λ q. is_run session task q ≡ true → q ≡ r) rs
  others_differ session task r [] h k = tt
  others_differ session task r (q ∷ rs) h k = (
    λ e. absurd (ground (arith, k.0, same_run session task r q h e)),
    others_differ session task r rs h k.1,
  )

  find_run-IsOnly :
      (session task : Bytes) (rs : List Fields) (row : Fields)
      → All (λ r. valid_checkpoint a r ≡ true) rs
      → IsDistinct rs
      → find_run session task rs ≡ ok row
      → IsOnly session task row rs
  find_run-IsOnly session task [] row v d e = absurd (ground (arith, e))
  find_run-IsOnly session task (r ∷ rs) row v d e = elim (Bool-cases (is_run session task r)) [
    | inl h ↦
        let same : r ≡ row = eq_of_ok (rw h at e) in
        subst (λ q. IsOnly session task q (r ∷ rs)) same
          (h, v.0, (λ k. refl, others_differ session task r rs h d.0))
    | inr h ↦
        let later = find_run-IsOnly session task rs row v.1 d.1 (rw h at e) in
        (later.0, later.1, (λ k. absurd (ground (arith, h, k)), later.2))
  ]

  -- A row that lookup finds is valid, is of the given session and task, and is the only such row
  -- of the checkpoints.
  pub lookup-IsOnly :
      (h : Fields) (session task : Bytes) (row : Fields)
      → lookup a h session task ≡ ok row
      → IsOnly session task row (rows h)
  unfolding lookup
  lookup-IsOnly h session task row e =
      let (u, good, e1) = >>=-eq-ok (refuse (not (valid_id session && valid_id task)) _) _ e in
      let (v, valid, e2) = >>=-eq-ok (validate_checkpoints a h) _ e1 in
      let checkpoints = validate_checkpoints-IsCheckpoints h valid in
      find_run-IsOnly session task (rows h) row checkpoints.valid checkpoints.distinct e2
