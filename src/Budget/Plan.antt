-- ===== src/Budget/Plan.antt =====
-- plan.go and config.go: MakePlan, which tells what blocks a run. `Floats` stands for float64, for the
-- sums of numbers.go and for the texts that are printed of them.
pub mod Below
use software_factory_templat.Base.{
  ℕ, zero, suc, ◌-◌, Bool, true, false, not, ◌&&◌, ◌||◌, ◌==◌, ltb, leb, Option, none, some, List,
  [], ◌∷◌, ◌++◌, length, Bytes, codes, bytes_eq, if◌then◌else◌, Result, ok, err, ◌>>=◌, ◌>>◌,
  refuse,
}
use software_factory_templat.Budget.Json.{Json, Fields, get, is_null, text_of, text_eq}
use software_factory_templat.Budget.Numbers.{Arithmetic, Integer, exact_integer, native}
use software_factory_templat.Budget.Domain.{valid_id, one_of, harness, role}
use software_factory_templat.Budget.History.{is_active, rows, validate_history}
use software_factory_templat.Budget.Ledger.{bad_pid}

pub record Floats (F S : Type 0) : Type 0 where
  -- Finite and above zero
  pub is_positive : F → Bool
  pub new_sum : S
  pub add : S → Json → Result S
  pub float : S → Result F
  pub at_least : S → F → Result Bool
  -- `math.Max(0, limit-charged)`, and whether it is not above zero
  pub remaining : F → F → F
  pub is_spent : F → Bool
  -- `math.Min`
  pub smaller : F → F → F
  -- `floatNumber`, and the text of a cost threshold that is reached
  pub print : F → Bytes
  pub print_cost : F → F → Bytes

-- `Config`, where 0 stands for a limit that is missing or not positive.
pub record BudgetConfig (F : Type 0) : Type 0 where
  pub enabled : Bool
  pub action : Bytes
  pub max_attempts : ℕ
  pub max_session_runs : ℕ
  pub max_concurrent : ℕ
  pub timeout_seconds : F
  pub session_seconds : F
  pub estimated_usd : Option F

pub record BudgetRequest : Type 0 where
  pub session : Bytes
  pub task : Bytes
  pub harness : Bytes
  pub role : Bytes
  pub model : Bytes
  pub max_cost_usd : Option Bytes

-- `BudgetPlan`, without what only repeats the request.
pub record BudgetPlan (F : Type 0) : Type 0 where
  pub remaining_attempts : ℕ
  pub remaining_session_runs : ℕ
  pub remaining_session_seconds : F
  pub active_runs : ℕ
  pub blockers : List Bytes
  pub warnings : List Bytes

-- What the loop over the rows gathers.
pub record Tally (S : Type 0) : Type 0 where
  pub session : List Fields
  pub task : List Fields
  pub active : List Fields
  pub charge : S
  pub cost : S

abbrev pub is_clear : {F : Type 0} → BudgetPlan F → Bool
is_clear p = length p.blockers == 0

abbrev pub block : Bool → Bytes → List Bytes
block true message = message ∷ []
block false message = []

abbrev pub in_session : BudgetRequest → Fields → Bool
in_session r row = text_eq (get row (codes "session")) r.session

abbrev pub in_task : BudgetRequest → Fields → Bool
in_task r row = in_session r row && text_eq (get row (codes "task")) r.task

abbrev pub append_if : Bool → List Fields → Fields → List Fields
append_if true xs x = xs ++ (x ∷ [])
append_if false xs x = xs

abbrev pub is_given : {A : Type 0} → Option A → Bool
is_given none = false
is_given (some x) = true

abbrev pub any_of : (Fields → Bool) → List Fields → Bool
any_of test [] = false
any_of test (r ∷ rs) = test r || any_of test rs

abbrev pub bad_cost : (Bytes → Bool) → Option Bytes → Bool
bad_cost valid none = false
bad_cost valid (some raw) = not (valid raw)

-- `utf8` is utf8.ValidString, and `valid_cost` is pythonFloat without an error.
unfoldable pub validate_request :
    (utf8 valid_cost : Bytes → Bool) → BudgetRequest → Result (Unit {0})
unfolding valid_id harness role
validate_request utf8 valid_cost r = do
  refuse
      (not
        (valid_id r.session && valid_id r.task && harness r.harness && role r.role && utf8 r.model))
      "invalid budget request"
  refuse (bad_cost valid_cost r.max_cost_usd) "invalid budget number"

-- A blocker of an active row: the answer about its owner, or an error.
abbrev pub stale : Fields → Option Bool → Result (List Bytes)
stale row none = err "cannot establish active budget owner status"
stale row (some alive) = ok (
    block (not alive) (
      codes "stale active run "
      ++ text_of (get row (codes "id"))
      ++ codes
          ": confirm its process group is stopped, then recover its metadata using docs/BUDGETS.md; do not delete the attempt"))

-- `owner` is `syscall.Kill(pid, 0)`: whether the process is there, or none for another error.
abbrev pub check_owner : (owner : ℕ → Option Bool) → Fields → Option ℕ → Result (List Bytes)
check_owner owner row none = err "active budget owner PID is outside the operating-system range"
check_owner owner row (some pid) =
    if bad_pid pid
    then err "active budget owner PID is outside the operating-system range"
    else stale row (owner pid)

abbrev pub append_result : Result (List Bytes) → Result (List Bytes) → Result (List Bytes)
append_result first rest = do xs ← first; ys ← rest; ok (xs ++ ys)

module _ (a : Arithmetic) (owner : ℕ → Option Bool) where
  abbrev pub active_blocker : Fields → Result (List Bytes)
  active_blocker row =
      if not (text_eq (get row (codes "outcome")) (codes "running"))
      then ok (
          (codes "unconfirmed process exit for run "
            ++ text_of (get row (codes "id"))
            ++ codes
                ": confirm its process group is stopped, then recover its metadata using docs/BUDGETS.md")
          ∷ [])
      else check_owner owner row (native a (exact_integer a (get row (codes "owner_pid"))))

  -- The loop over the active rows.
  unfoldable pub active_blockers : List Fields → Result (List Bytes)
  unfolding exact_integer
  active_blockers [] = ok []
  active_blockers (r ∷ rs) = append_result (active_blocker r) (active_blockers rs)

module _ {F S : Type 0} (fl : Floats F S) (a : Arithmetic) where
  abbrev pub bad_limit : ℕ → Bool
  bad_limit n = (n == 0) || not (a.finite (record { negative = false; magnitude = n }))

  abbrev pub bad_threshold : Option F → Bool
  bad_threshold none = false
  bad_threshold (some f) = not (fl.is_positive f)

  unfoldable pub validate_config : BudgetConfig F → Result (Unit {0})
  validate_config c = do
    refuse (not (one_of (codes "stop" ∷ codes "warn" ∷ []) c.action)) "invalid budget action"
    refuse (bad_limit c.max_attempts || bad_limit c.max_session_runs || bad_limit c.max_concurrent)
        "invalid budget limits"
    refuse (not (fl.is_positive c.timeout_seconds && fl.is_positive c.session_seconds))
        "invalid budget seconds"
    refuse (bad_threshold c.estimated_usd) "invalid budget cost threshold"

  abbrev pub add_cost : Bool → S → Json → Result S
  add_cost true cost v = fl.add cost v
  add_cost false cost v = ok cost

  -- One row of the loop, of the session.
  abbrev pub tally_session : BudgetConfig F → BudgetRequest → Fields → Tally S → Result (Tally S)
  tally_session c r row t = do
    charge ←
        fl.add t.charge
          (get row (if is_active row then codes "reserved_seconds" else codes "elapsed_seconds"))
    cost ←
        add_cost (is_given c.estimated_usd && not (is_null (get row (codes "estimated_usd"))))
          t.cost (get row (codes "estimated_usd"))
    ok (record t {
      session = t.session ++ (row ∷ []);
      task = append_if (in_task r row) t.task row;
      charge = charge;
      cost = cost;
    })

  abbrev pub tally_row : BudgetConfig F → BudgetRequest → Fields → Tally S → Result (Tally S)
  tally_row c r row t =
      let counted : Tally S = record t { active = append_if (is_active row) t.active row } in
      if in_session r row then tally_session c r row counted else ok counted

  unfoldable pub tally_rows :
      BudgetConfig F → BudgetRequest → List Fields → Tally S → Result (Tally S)
  tally_rows c r [] t = ok t
  tally_rows c r (row ∷ rest) t = tally_row c r row t >>= tally_rows c r rest

  abbrev pub no_tally : Tally S
  no_tally = record { session = []; task = []; active = []; charge = fl.new_sum; cost = fl.new_sum }

  abbrev pub own_blockers : BudgetConfig F → BudgetRequest → List Bytes
  own_blockers c r =
      block (not c.enabled)
        (codes "budget feature is disabled; set budget_enabled: true to permit explicit runs")
      ++ block (is_given r.max_cost_usd) (
          codes
            "strict USD ceilings are unsupported for all harnesses; estimates are not billing limits")

  unfoldable pub limit_blockers : BudgetConfig F → Tally S → F → List Bytes
  limit_blockers c t seconds =
      block (c.max_attempts - length t.task == 0) (codes "task attempt limit reached")
      ++ block (c.max_session_runs - length t.session == 0) (codes "session run limit reached")
      ++ block (fl.is_spent seconds) (codes "session time limit reached")
      ++ block (leb c.max_concurrent (length t.active)) (codes "checkout concurrency limit reached")

  abbrev pub reached_concern : S → F → Bool → Result (List Bytes)
  reached_concern cost limit false = ok []
  reached_concern cost limit true = do known ← fl.float cost; ok (fl.print_cost known limit ∷ [])

  abbrev pub cost_concerns : BudgetRequest → Tally S → Option F → Result (List Bytes)
  cost_concerns r t none = ok []
  cost_concerns r t (some limit) = do
    reached ← fl.at_least t.cost limit
    concern ← reached_concern t.cost limit reached
    ok (
        block (bytes_eq r.harness (codes "codex"))
          (codes "Codex does not report a usable USD estimate")
        ++ block (any_of is_active t.session)
            (codes "another session invocation has not reported its cost")
        ++ block
            (any_of (λ row. not (is_active row) && is_null (get row (codes "estimated_usd")))
              t.session)
            (codes "previous session cost is unknown")
        ++ concern)

  module _ (owner : ℕ → Option Bool) (utf8 valid_cost : Bytes → Bool) where
    abbrev pub plan_of :
        BudgetConfig F → BudgetRequest → Tally S → F → List Bytes → List Bytes → BudgetPlan F
    plan_of c r t seconds actives concerns =
        let stops : Bool = bytes_eq c.action (codes "stop") in
        record {
          remaining_attempts = c.max_attempts - length t.task;
          remaining_session_runs = c.max_session_runs - length t.session;
          remaining_session_seconds = seconds;
          active_runs = length t.active;
          blockers =
              own_blockers c r
              ++ actives
              ++ limit_blockers c t seconds
              ++ (if stops then concerns else []);
          warnings = if stops then [] else concerns;
        }

    unfoldable pub make_budget_plan :
        BudgetRequest → BudgetConfig F → Fields → Result (BudgetPlan F)
    unfolding validate_request validate_config validate_history tally_rows active_blockers
        limit_blockers
    make_budget_plan r c h = do
      validate_request utf8 valid_cost r
      validate_config c
      validate_history a h
      t ← tally_rows c r (rows h) no_tally
      charged ← fl.float t.charge
      actives ← active_blockers a owner t.active
      concerns ← cost_concerns r t c.estimated_usd
      ok (plan_of c r t (fl.remaining c.session_seconds charged) actives concerns)
