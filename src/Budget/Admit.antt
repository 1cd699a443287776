-- ===== src/Budget/Admit.antt =====
-- lifecycle.go: admitObserved, which reserves a run in the ledger that the lock guards.
pub mod Limits
use software_factory_templat.Base.{
  ℕ, suc, ◌+◌, ◌-◌, Bool, true, false, Option, none, some, List, [], ◌∷◌, Bytes, codes, length,
  ◌==◌, if◌then◌else◌, Result, ok, err, ◌>>=◌, ◌>>◌,
}
use software_factory_templat.Base.Decimal.{decimal}
use software_factory_templat.Budget.Json.{
  Json, null, boolean, number, text, array, object, Items, nil, cons, Fields, empty, field, get,
  put,
}
use software_factory_templat.Budget.Numbers.{Arithmetic}
use software_factory_templat.Budget.History.{runs_of}
use software_factory_templat.Budget.Ledger.{write}
use software_factory_templat.Budget.Plan.{
  Floats, BudgetConfig, BudgetRequest, BudgetPlan, validate_request, validate_config, is_clear,
  make_budget_plan,
}

-- `BudgetAdmission`: the record is missing where the plan has blockers.
pub data BudgetAdmission (F : Type 0) : Type 0 where
  blocked : (plan : BudgetPlan F) → BudgetAdmission F
  admitted : (plan : BudgetPlan F) (row ledger : Fields) → BudgetAdmission F

abbrev pub append_item : Items → Json → Items
append_item nil v = cons v nil
append_item (cons w ws) v = cons w (append_item ws v)

-- stringValues
abbrev pub text_items : List Bytes → Items
text_items [] = nil
text_items (s ∷ ss) = cons (text s) (text_items ss)

abbrev pub append_run : Fields → Fields → Fields
append_run row h =
    put h (codes "runs") (array (append_item (runs_of (get h (codes "runs"))) (object row)))

-- `own` is os.Getpid(), `id` the new identity, `now` the timestamp, and `policy` what a controller
-- makes of the configuration, for its execution time: the limits of the attempts stay as they are.
module _ {F S : Type 0} (fl : Floats F S) (a : Arithmetic) (owner : ℕ → Option Bool)
    (utf8 valid_cost : Bytes → Bool) (own : ℕ) (id now : Bytes)
    (policy : BudgetConfig F → F → Result (BudgetConfig F))
    (observer : BudgetPlan F → Result (Unit {0})) (encoded_length : Fields → ℕ)
    (publish : Fields → Result (Unit {0})) where
  abbrev pub reservation : BudgetRequest → BudgetConfig F → BudgetPlan F → Fields
  reservation r c p = field (codes "id") (text id) (
      field (codes "session") (text r.session) (
        field (codes "task") (text r.task) (
          field (codes "harness") (text r.harness) (
            field (codes "role") (text r.role) (
              field (codes "model") (text r.model) (
                field (codes "started_at") (text now) (
                  field (codes "ended_at") null (
                    field (codes "elapsed_seconds") (number (codes "0.0")) (
                      field (codes "reserved_seconds")
                        (number
                          (fl.print (fl.smaller c.timeout_seconds p.remaining_session_seconds)))
                        (field (codes "attempt")
                          (number (decimal ((c.max_attempts - p.remaining_attempts) + 1)))
                          (field (codes "owner_pid") (number (decimal own)) (
                            field (codes "process_pid") null (
                              field (codes "status") (text (codes "active")) (
                                field (codes "outcome") (text (codes "running")) (
                                  field (codes "exit_code") null (
                                    field (codes "tokens") null (
                                      field (codes "estimated_usd") null (
                                        field (codes "complete") (boolean false) (
                                          field (codes "source") (text (codes "not yet reported")) (
                                            field (codes "warnings") (array (text_items p.warnings))
                                              empty))))))))))))))))))))

  abbrev pub reserve_run :
      BudgetRequest → Fields → BudgetPlan F → BudgetConfig F → Result (BudgetAdmission F)
  reserve_run r h p c = do
    observer p
    let row = reservation r c p
    let later = append_run row h
    write a encoded_length publish later
    ok (admitted p row later)

  -- After the lock: `h` is the ledger that it guards.
  unfoldable pub admit_locked : BudgetRequest → BudgetConfig F → Fields → Result (BudgetAdmission F)
  unfolding make_budget_plan write decimal
  admit_locked r c h = do
    p ← make_budget_plan fl a owner utf8 valid_cost r c h
    if is_clear p
        then policy c p.remaining_session_seconds >>= reserve_run r h p
        else observer p >>= λ u. ok (blocked p)

  abbrev pub admit_clear :
      BudgetRequest → BudgetConfig F → Fields → BudgetPlan F → Result (BudgetAdmission F)
  admit_clear r c h p = if is_clear p then admit_locked r c h else ok (blocked p)

  -- `initial` is the ledger that is read before the lock, or none where the controller is prepared.
  abbrev pub admit_initial :
      BudgetRequest → BudgetConfig F → Fields → Option Fields → Result (BudgetAdmission F)
  admit_initial r c h none = admit_locked r c h
  admit_initial r c h (some initial) =
      make_budget_plan fl a owner utf8 valid_cost r c initial >>= admit_clear r c h

  unfoldable pub admit :
      BudgetRequest
      → BudgetConfig F
      → (initial : Option Fields) → Fields
      → Result (BudgetAdmission F)
  unfolding admit_locked
  admit r c initial h = do
    validate_request utf8 valid_cost r
    validate_config fl a c
    admit_initial r c h initial
