-- ===== src/Budget/Admit/Limits.antt =====
-- A reservation keeps the ledger within the limits of the configuration.
use software_factory_templat.Base.{
  ℕ, ◌≤◌, ◌<◌, Bool, true, false, Option, none, some, List, [], ◌∷◌, ◌++◌, Bytes, codes, Result, ok,
  ◌>>=◌, >>=-eq-ok, eq_of_ok, ap, sym, subst, ◌∙◌, ◌≡◌, ◌≢◌, refl, arith, inl, inr,
}
use software_factory_templat.Budget.Json.{array, object, Items, nil, cons, Fields, get, get-put}
use software_factory_templat.Budget.Numbers.{Arithmetic}
use software_factory_templat.Budget.History.{
  is_active, fields_of, item_rows, runs_of, rows, validate_history,
}
use software_factory_templat.Budget.Ledger.{write}
use software_factory_templat.Budget.Plan.{
  Floats, BudgetConfig, BudgetRequest, BudgetPlan, in_session, in_task, validate_request,
  validate_config, is_clear, make_budget_plan,
}
use software_factory_templat.Budget.Admit.{
  BudgetAdmission, blocked, admitted, append_item, append_run, reservation, reserve_run,
  admit_locked, admit,
}
use software_factory_templat.Budget.Plan.Below.{
  count, count-append, if-eq-ok, make_budget_plan-IsBelow,
}

item_rows-append_item :
    (vs : Items) (row : Fields)
    → item_rows (append_item vs (object row)) ≡ item_rows vs ++ (row ∷ [])
item_rows-append_item nil row = refl
item_rows-append_item (cons v vs) row = ap (λ t. fields_of v ∷ t) (item_rows-append_item vs row)

rows-append_run : (row h : Fields) → rows (append_run row h) ≡ rows h ++ (row ∷ [])
rows-append_run row h =
    let items : Items = append_item (runs_of (get h (codes "runs"))) (object row) in
    ap (λ v. item_rows (runs_of v)) (get-put h (codes "runs") (codes "runs") (array items))
    ∙ item_rows-append_item (runs_of (get h (codes "runs"))) row

abbrev pub ledger_of : {F : Type 0} → BudgetAdmission F → Fields
ledger_of (blocked p) = Fields.empty
ledger_of (admitted p row later) = later

abbrev is_admitted : {F : Type 0} → BudgetAdmission F → Bool
is_admitted (blocked p) = false
is_admitted (admitted p row later) = true

abbrev pub row_of : {F : Type 0} → BudgetAdmission F → Fields
row_of (blocked p) = Fields.empty
row_of (admitted p row later) = row

at_most :
    (test : Fields → Bool) (before after : List Fields) (row : Fields) (limit : ℕ)
    → after ≡ before ++ (row ∷ [])
    → count test before < limit
    → count test after ≤ limit
at_most test before after row limit same below =
    rw same (omega (arith, count-append test before row, below))

not_admitted :
    {F : Type 0} (q p : BudgetPlan F) (row later : Fields) → blocked q ≢ admitted p row later
not_admitted q p row later e = ground (arith, ap is_admitted e)

-- The ledger has one more row, is valid, and is within the limits.
pub record IsReserved {F : Type 0} (a : Arithmetic) (c : BudgetConfig F) (r : BudgetRequest)
    (h row later : Fields) : Type 0 where
  pub enabled : c.enabled ≡ true
  pub rows_after : rows later ≡ rows h ++ (row ∷ [])
  pub valid : validate_history a later ≡ ok tt
  pub attempts : count (in_task r) (rows later) ≤ c.max_attempts
  pub session_runs : count (in_session r) (rows later) ≤ c.max_session_runs
  pub concurrent : count is_active (rows later) ≤ c.max_concurrent

module _ {F S : Type 0} (fl : Floats F S) (a : Arithmetic) (owner : ℕ → Option Bool)
    (utf8 valid_cost : Bytes → Bool) (own : ℕ) (id now : Bytes)
    (policy : BudgetConfig F → F → Result (BudgetConfig F))
    (observer : BudgetPlan F → Result (Unit {0})) (encoded_length : Fields → ℕ)
    (publish : Fields → Result (Unit {0})) where
  write-validate_history :
      (h : Fields) (u : Unit {0})
      → write a encoded_length publish h ≡ ok u
      → validate_history a h ≡ ok tt
  unfolding write
  write-validate_history h u e = (>>=-eq-ok (validate_history a h) _ e).1

  reserve_run-lem :
      (r : BudgetRequest) (h : Fields) (q p : BudgetPlan F) (c : BudgetConfig F)
      (row later : Fields)
      → reserve_run fl a owner utf8 valid_cost own id now policy observer encoded_length publish r h
          q c
        ≡ ok (admitted p row later)
      → (rows later ≡ rows h ++ (row ∷ [])) × (validate_history a later ≡ ok tt)
  reserve_run-lem r h q p c row later e =
      let new : Fields =
        reservation fl a owner utf8 valid_cost own id now policy observer encoded_length publish r c
          q in
      let (u1, k1, e1) = >>=-eq-ok (observer q) _ e in
      let (u2, k2, e2) = >>=-eq-ok (write a encoded_length publish (append_run new h)) _ e1 in
      let same = eq_of_ok e2 in
      let ledger : append_run new h ≡ later = ap ledger_of same in
      (
        sym (ap rows ledger)
            ∙ rows-append_run new h
            ∙ ap (λ x. rows h ++ (x ∷ [])) (ap row_of same),
        subst (λ x. validate_history a x ≡ ok tt) ledger
            (write-validate_history (append_run new h) u2 k2),
      )

  admit_locked-IsReserved :
      (r : BudgetRequest) (c : BudgetConfig F) (h : Fields) (p : BudgetPlan F) (row later : Fields)
      → admit_locked fl a owner utf8 valid_cost own id now policy observer encoded_length publish r
          c h
        ≡ ok (admitted p row later)
      → IsReserved a c r h row later
  unfolding admit_locked
  admit_locked-IsReserved r c h p row later e =
      let (q, k1, e1) = >>=-eq-ok (make_budget_plan fl a owner utf8 valid_cost r c h) _ e in
      elim (if-eq-ok (is_clear q)
        (policy c q.remaining_session_seconds
          >>= reserve_run fl a owner utf8 valid_cost own id now policy observer encoded_length
              publish r h q)
        (observer q >>= λ u. ok (blocked q)) e1) [
          | inl (clear, e2) ↦
              let (c1, k3, e3) = >>=-eq-ok (policy c q.remaining_session_seconds) _ e2 in
              let (after, valid) = reserve_run-lem r h q p c1 row later e3 in
              let below = make_budget_plan-IsBelow fl a owner utf8 valid_cost r c h q k1 clear in
              record {
                enabled = below.0;
                rows_after = after;
                valid = valid;
                attempts =
                    at_most (in_task r) (rows h) (rows later) row c.max_attempts after below.1;
                session_runs =
                    at_most (in_session r) (rows h) (rows later) row c.max_session_runs after
                      below.2;
                concurrent =
                    at_most is_active (rows h) (rows later) row c.max_concurrent after below.3;
              }
          | inr (held, e2) ↦
              let (u, k3, e3) = >>=-eq-ok (observer q) _ e2 in
              absurd (not_admitted q p row later (eq_of_ok e3))
        ]

  -- An admission that reserves a run found the budget enabled and leaves a ledger that passes
  -- validation and is that before with the reserved row at the end; with this row the task has at
  -- most the configured attempts, the session at most its runs, and the ledger at most as many
  -- active rows as may be concurrent, whatever the floats, the owners, the policy and the
  -- publication answer.
  pub admit-IsReserved :
      (r : BudgetRequest) (c : BudgetConfig F) (initial : Option Fields) (h : Fields)
      (p : BudgetPlan F) (row later : Fields)
      → admit fl a owner utf8 valid_cost own id now policy observer encoded_length publish r c
          initial h
        ≡ ok (admitted p row later)
      → IsReserved a c r h row later
  unfolding admit
  admit-IsReserved r c none h p row later e =
      let (u1, k1, e1) = >>=-eq-ok (validate_request utf8 valid_cost r) _ e in
      let (u2, k2, e2) = >>=-eq-ok (validate_config fl a c) _ e1 in
      admit_locked-IsReserved r c h p row later e2
  admit-IsReserved r c (some initial) h p row later e =
      let (u1, k1, e1) = >>=-eq-ok (validate_request utf8 valid_cost r) _ e in
      let (u2, k2, e2) = >>=-eq-ok (validate_config fl a c) _ e1 in
      let (q, k3, e3) = >>=-eq-ok (make_budget_plan fl a owner utf8 valid_cost r c initial) _ e2 in
      elim (if-eq-ok (is_clear q)
        (admit_locked fl a owner utf8 valid_cost own id now policy observer encoded_length publish r
          c h)
        (ok (blocked q)) e3) [
          | inl (clear, e4) ↦ admit_locked-IsReserved r c h p row later e4
          | inr (held, e4) ↦ absurd (not_admitted q p row later (eq_of_ok e4))
        ]
