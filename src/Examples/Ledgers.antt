-- ===== src/Examples/Ledgers.antt =====
-- A ledger with one active run of process 7, which publishes its child 42.
use software_factory_templat.Base.{Bool, Option, none}
use software_factory_templat.Base.{
  ℕ, ◌+◌, ◌-◌, ◌*◌, true, false, some, String, [], ◌∷◌, Bytes, codes, Result, ok, err, ◌≡◌, refl,
}
use software_factory_templat.Budget.Json.{
  Json, boolean, number, text, array, object, nil, cons, Fields, empty, field,
}
use software_factory_templat.Budget.Numbers.{Arithmetic}
use software_factory_templat.Budget.History.{is_active, validate_history, rows}
use software_factory_templat.Budget.History.Unique.{IsHistory, validate_history-IsHistory}
use software_factory_templat.Base.Decimal.{decimal}
use software_factory_templat.Budget.Ledger.{publish_pid, owner_record, reconcile_pid}
use software_factory_templat.Budget.Finalize.{Completion, finalize, is_uncertain}
use software_factory_templat.Budget.Finalize.Retained.{IsOver, finalize-IsOver}
use software_factory_templat.Examples.Admissions.{seconds, config}
use software_factory_templat.Budget.Ledger.Publish.{AllKept, publish_pid-AllKept}

-- Stand-ins for math/big and strconv on plain digits.
abbrev digits : ℕ → Bytes → ℕ
digits n [] = n
digits n (c ∷ cs) = digits (n * 10 + (c - 48)) cs

abbrev arithmetic : Arithmetic
arithmetic = record {
  parse = λ s. some (record { negative = false; magnitude = digits 0 s });
  finite = λ i. true;
  is_negative = λ s. some false;
}

abbrev string : String → Json
string s = text (codes s)

abbrev with : String → Json → Fields → Fields
with key v m = field (codes key) v m

abbrev active_run : Fields
active_run = with "id" (string "run1") (
    with "session" (string "s1") (
      with "task" (string "t1") (
        with "harness" (string "claude") (
          with "role" (string "reviewer") (
            with "status" (string "active") (
              with "outcome" (string "running") (
                with "elapsed_seconds" (number (codes "0.0")) (
                  with "reserved_seconds" (number (codes "300.0")) (
                    with "attempt" (number (codes "1")) (
                      with "owner_pid" (number (codes "7")) (
                        with "complete" (boolean false) (
                          with "warnings" (array nil) (
                            with "model" (string "m") (
                              with "started_at" (string "now")
                                (with "source" (string "none") empty)))))))))))))))

abbrev ledger : Fields
ledger =
    with "schema" (number (codes "1")) (with "runs" (array (cons (object active_run) nil)) empty)

ledger_valid : validate_history arithmetic ledger ≡ ok tt
unfolding validate_history
ledger_valid = refl

validate_history-IsHistory_example : IsHistory arithmetic (rows ledger)
validate_history-IsHistory_example = validate_history-IsHistory arithmetic ledger ledger_valid

abbrev encoded : Fields → ℕ
encoded h = 1000

abbrev accept : Fields → Result (Unit {0})
accept h = ok tt

abbrev published : Result (Fields × Fields) → Fields × Fields
published (ok p) = p
published (err e) = (empty, empty)

abbrev answer : Fields × Fields
answer = published (publish_pid arithmetic encoded accept 7 ledger (codes "run1") 42)

pid_published : publish_pid arithmetic encoded accept 7 ledger (codes "run1") 42 ≡ ok answer
unfolding publish_pid decimal
pid_published = refl

publish_pid-AllKept_example :
    AllKept arithmetic 7 (codes "run1") 42 (rows ledger) (rows answer.1)
    × (validate_history arithmetic answer.1 ≡ ok tt)
publish_pid-AllKept_example =
    publish_pid-AllKept arithmetic 7 (codes "run1") 42 encoded accept ledger answer.0 answer.1
      pid_published

abbrev no_runs : Fields
no_runs = with "schema" (number (codes "1")) (with "runs" (array nil) empty)

abbrev completion : Completion
completion = record {
  outcome = codes "completed";
  exit_code = none;
  elapsed = codes "1.5";
  process_pid = some 42;
  exit_confirmed = false;
  ownership_unconfirmed = false;
  tokens = none;
  estimated_usd = none;
  complete = true;
  failed = false;
  source = codes "client";
}

abbrev any_text : Bytes → Bool
any_text s = true

abbrev final : Fields × Fields
final = published (
    finalize arithmetic any_text any_text seconds encoded accept config 7 (codes "later") ledger
      (codes "run1") completion)

run_finalized :
    finalize arithmetic any_text any_text seconds encoded accept config 7
      (codes "later")
      ledger
      (codes "run1")
      completion
    ≡ ok final
unfolding finalize decimal
run_finalized = refl

-- The exit is unconfirmed: the run stays active.
run_retained : is_active final.0 ≡ true
unfolding finalize decimal
run_retained = refl

finalize-IsOver_example :
    (validate_history arithmetic final.1 ≡ ok tt)
    × (r : Fields) × (pid : Option ℕ) × (owner_record arithmetic 7 ledger (codes "run1") ≡ ok r)
    × (reconcile_pid arithmetic r (some 42) ≡ ok pid)
    × (is_active final.0 ≡ is_uncertain completion pid)
    × (is_active final.0 ≡ false → IsOver completion pid)
finalize-IsOver_example =
    finalize-IsOver arithmetic any_text any_text encoded accept seconds config 7 (codes "later")
      ledger (codes "run1") completion final.0 final.1 run_finalized
