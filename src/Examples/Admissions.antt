-- ===== src/Examples/Admissions.antt =====
-- A run that is reserved in an empty ledger, with whole seconds for the floats.
use software_factory_templat.Base.{false, All}
use software_factory_templat.Base.{
  ℕ, suc, ◌-◌, Bool, true, not, Option, none, some, [], Bytes, codes, leb, min, ◌==◌, Result, ok,
  err, ◌≡◌, refl,
}
use software_factory_templat.Budget.Json.{Fields}
use software_factory_templat.Budget.Plan.{Floats, BudgetConfig, BudgetRequest, BudgetPlan}
use software_factory_templat.Budget.Admit.{BudgetAdmission, blocked, admitted, admit}
use software_factory_templat.Budget.Admit.Limits.{IsReserved, ledger_of, row_of, admit-IsReserved}
use software_factory_templat.Budget.History.{has_active, rows}
use software_factory_templat.Budget.Plan.Below.{IsBelow}
use software_factory_templat.Loop.Runes.{is_blank}
use software_factory_templat.Loop.History.{is_open}
use software_factory_templat.Loop.Planned.{make_manual_plan, make_manual_plan-IsBelow}
use software_factory_templat.Examples.Loops.{unicode, arithmetic, no_runs}

abbrev sixty : Bytes
sixty = codes "60.0"

abbrev pub seconds : Floats ℕ ℕ
seconds = record {
  is_positive = λ f. not (f == 0);
  new_sum = 0;
  add = λ s v. ok (suc s);
  float = λ s. ok s;
  at_least = λ s f. ok (leb f s);
  remaining = λ limit charged. limit - charged;
  is_spent = λ f. f == 0;
  smaller = λ x y. min x y;
  print = λ f. sixty;
  print_cost = λ known limit. [];
}

abbrev pub config : BudgetConfig ℕ
config = record {
  enabled = true;
  action = codes "stop";
  max_attempts = 1;
  max_session_runs = 5;
  max_concurrent = 1;
  timeout_seconds = 60;
  session_seconds = 900;
  estimated_usd = none;
}

abbrev request : BudgetRequest
request = record {
  session = codes "s1";
  task = codes "t1";
  harness = codes "claude";
  role = codes "implementer";
  model = [];
  max_cost_usd = none;
}

abbrev always : Bytes → Bool
always s = true

abbrev alive : ℕ → Option Bool
alive pid = some true

abbrev keep : BudgetConfig ℕ → ℕ → Result (BudgetConfig ℕ)
keep c left = ok c

abbrev ignore : BudgetPlan ℕ → Result (Unit {0})
ignore p = ok tt

abbrev size : Fields → ℕ
size h = 1000

abbrev published : Fields → Result (Unit {0})
published h = ok tt

abbrev no_plan : BudgetPlan ℕ
no_plan = record {
  remaining_attempts = 0;
  remaining_session_runs = 0;
  remaining_session_seconds = 0;
  active_runs = 0;
  blockers = [];
  warnings = [];
}

abbrev answered : Result (BudgetAdmission ℕ) → BudgetAdmission ℕ
answered (ok x) = x
answered (err e) = blocked no_plan

abbrev plan_in : BudgetAdmission ℕ → BudgetPlan ℕ
plan_in (blocked p) = p
plan_in (admitted p row later) = p

abbrev admission : BudgetAdmission ℕ
admission = answered (
    admit seconds arithmetic alive always always 7 (codes "run1") (codes "now") keep ignore size
      published request config (some no_runs) no_runs)

run_admitted :
    admit seconds arithmetic alive always always 7
      (codes "run1")
      (codes "now")
      keep
      ignore
      size
      published
      request
      config
      (some no_runs)
      no_runs
    ≡ ok (admitted (plan_in admission) (row_of admission) (ledger_of admission))
unfolding admit
run_admitted = refl

admit-IsReserved_example :
    IsReserved arithmetic config request no_runs (row_of admission) (ledger_of admission)
admit-IsReserved_example =
    admit-IsReserved seconds arithmetic alive always always 7 (codes "run1") (codes "now") keep
      ignore size published request config (some no_runs) no_runs (plan_in admission)
      (row_of admission) (ledger_of admission) run_admitted

run_planned :
    make_manual_plan seconds arithmetic alive always always unicode true true
      (codes "make")
      request
      config
      no_runs
      no_runs
    ≡ ok []
unfolding make_manual_plan
run_planned = refl

make_manual_plan-IsBelow_example :
    (has_active arithmetic no_runs ≡ ok false)
    × (is_blank unicode (codes "make") ≡ false)
    × All (λ q. is_open q ≡ false) (rows no_runs)
    × (true ≡ true → (true ≡ true) × IsBelow seconds arithmetic config request (rows no_runs))
make_manual_plan-IsBelow_example =
    make_manual_plan-IsBelow seconds arithmetic alive always always unicode true true (codes "make")
      request config no_runs no_runs run_planned
