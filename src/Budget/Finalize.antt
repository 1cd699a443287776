-- ===== src/Budget/Finalize.antt =====
-- lifecycle.go, Finalize, for a configuration without a cost threshold (`c.EstimatedUSD == nil`): the
-- owner's row when its run is over, or when nobody can say that it is.
pub mod Retained
use software_factory_templat.Base.{
  ℕ, Bool, true, false, not, ◌&&◌, ◌||◌, Option, none, some, String, List, [], ◌∷◌, ◌++◌, Bytes,
  codes, bytes_eq, if◌then◌else◌, Result, ok, err, ◌>>=◌, ◌>>◌, refuse,
}
use software_factory_templat.Base.Assoc.{is_some}
use software_factory_templat.Base.Decimal.{decimal}
use software_factory_templat.Budget.Json.{
  Json, null, boolean, number, text, array, object, Items, nil, cons, Fields, get, put, is_null,
}
use software_factory_templat.Budget.Numbers.{Arithmetic, Integer, valid_amount}
use software_factory_templat.Budget.Domain.{valid_id, one_of, valid_outcome}
use software_factory_templat.Budget.Plan.{Floats, BudgetConfig, validate_config}
use software_factory_templat.Budget.History.{all_counts, validate_history}
use software_factory_templat.Budget.Ledger.{
  owner_record, reconcile_pid, pid_number, write, write_row,
}

-- `ElapsedSeconds` and the numbers of `Tokens` and `EstimatedUSD` are their JSON numbers.
pub record Completion : Type 0 where
  pub outcome : Bytes
  pub exit_code : Option Integer
  pub elapsed : Bytes
  pub process_pid : Option ℕ
  pub exit_confirmed : Bool
  pub ownership_unconfirmed : Bool
  pub tokens : Option Fields
  pub estimated_usd : Option Bytes
  pub complete : Bool
  pub failed : Bool
  pub source : Bytes

abbrev pub integer_number : Option Integer → Json
integer_number none = null
integer_number (some i) =
    number (if i.negative then b'-' ∷ decimal i.magnitude else decimal i.magnitude)

abbrev pub tokens_json : Option Fields → Json
tokens_json none = null
tokens_json (some m) = object m

abbrev pub cost_json : Option Bytes → Json
cost_json none = null
cost_json (some n) = number n

-- `uncertain`: a process was started, and its exit is not known, or its ownership is not.
unfoldable pub is_uncertain : Completion → Option ℕ → Bool
is_uncertain c pid =
    c.ownership_unconfirmed || (is_some pid && (not c.exit_confirmed || not (is_some c.exit_code)))

-- `outcome`
unfoldable pub outcome_of : Completion → Bytes
outcome_of c =
    if bytes_eq c.outcome (codes "completed") && (c.failed || not c.complete)
    then codes "failed"
    else c.outcome

-- The metadata of the run cannot be trusted.
unfoldable pub is_unreliable : Completion → Bool → Bool
unfolding outcome_of
is_unreliable c uncertain =
    one_of
      (codes "timeout" ∷ codes "interrupted" ∷ codes "output_limit" ∷ codes "launch_error" ∷ [])
      (outcome_of c)
    || not c.complete
    || uncertain

abbrev pub append_text : Items → String → Items
append_text nil s = cons (text (codes s)) nil
append_text (cons v vs) s = cons v (append_text vs s)

-- `row["warnings"].([]any)`
abbrev pub warnings_of : Json → Items
warnings_of (array xs) = xs
warnings_of null = nil
warnings_of (boolean b) = nil
warnings_of (number n) = nil
warnings_of (text s) = nil
warnings_of (object m) = nil

abbrev pub with_pid : Option ℕ → Fields → Fields
with_pid none r = r
with_pid (some pid) r = put r (codes "process_pid") (pid_number (some pid))

-- `tokens`, `estimated_usd` and `complete` after both of their writes.
abbrev pub reported_tokens : Completion → Bool → Json
reported_tokens c unreliable = if unreliable then null else tokens_json c.tokens

abbrev pub reported_cost : Completion → Bool → Json
reported_cost c unreliable = if unreliable then null else cost_json c.estimated_usd

unfoldable pub with_metadata : Completion → Bool → Fields → Fields
unfolding outcome_of is_unreliable
with_metadata c uncertain r =
    let unreliable = is_unreliable c uncertain in
    let r = put r (codes "outcome") (text (outcome_of c)) in
    let r = put r (codes "elapsed_seconds") (number c.elapsed) in
    let r = put r (codes "source") (text c.source) in
    let r = put r (codes "exit_code") (integer_number c.exit_code) in
    let r = put r (codes "tokens") (reported_tokens c unreliable) in
    let r = put r (codes "estimated_usd") (reported_cost c unreliable) in
    put r (codes "complete") (boolean (if unreliable then false else c.complete))

unfoldable pub cost_warning : Completion → Bool → Items → Items
unfolding outcome_of is_unreliable
cost_warning c uncertain ws =
    if bytes_eq (outcome_of c) (codes "launch_error")
    then append_text ws "invocation or metadata processing failed; cost is unknown"
    else if is_null (reported_cost c (is_unreliable c uncertain))
    then append_text ws "cost is unknown; no complete session cost total can be claimed"
    else ws

abbrev pub retention_warning : String
retention_warning =
    "process exit is unconfirmed; reservation retained; confirm the process group has stopped before recovery in docs/BUDGETS.md"

abbrev pub without_exit : Completion → Fields → Fields
without_exit c r =
    put
      (put
        (if bytes_eq (outcome_of c) (codes "timeout")
          then r
          else put r (codes "outcome") (text (codes "launch_error")))
        (codes "exit_code") null)
      (codes "ended_at") null

-- The branch on `uncertain`; `now` is `timestamp()`.
unfoldable pub retained : Completion → Items → Fields → Fields
unfolding outcome_of
retained c ws r =
    put (put (without_exit c r) (codes "status") (text (codes "active"))) (codes "warnings")
      (array (append_text ws retention_warning))

unfoldable pub ended : Bytes → Items → Fields → Fields
ended now ws r =
    put (put (put r (codes "status") (text (codes "completed"))) (codes "ended_at") (text now))
      (codes "warnings") (array ws)

unfoldable pub final_row : Bytes → Completion → Option ℕ → Fields → Fields
unfolding is_uncertain with_metadata cost_warning retained ended
final_row now c pid r =
    let uncertain = is_uncertain c pid in
    let ws = cost_warning c uncertain (warnings_of (get r (codes "warnings"))) in
    let known = with_metadata c uncertain (with_pid pid r) in
    if uncertain then retained c ws known else ended now ws known

-- `utf8` is utf8.ValidString and `json` is json.Valid.
module _ (a : Arithmetic) (utf8 json : Bytes → Bool) where
  abbrev pub all_keys : Fields → Bool
  all_keys Fields.empty = true
  all_keys (Fields.field k v m) = utf8 k && all_keys m

  abbrev pub valid_counts : Option Fields → Bool
  valid_counts none = true
  valid_counts (some m) = all_keys m && all_counts a m

  abbrev pub valid_cost : Option Bytes → Bool
  valid_cost none = true
  valid_cost (some n) = json n && valid_amount a (number n)

  unfoldable pub validate_completion : Completion → Result (Unit {0})
  unfolding valid_outcome valid_amount
  validate_completion c = do
    refuse
        (not (valid_outcome c.outcome false && valid_amount a (number c.elapsed) && utf8 c.source))
        "invalid budget completion"
    refuse (c.exit_confirmed && not (is_some c.exit_code))
        "confirmed native exit requires an exit code"
    refuse (not (valid_counts c.tokens)) "invalid budget token metadata"
    refuse (not (valid_cost c.estimated_usd)) "invalid budget cost metadata"

  module _ {F S : Type 0} (fl : Floats F S) (encoded_length : Fields → ℕ)
      (publish : Fields → Result (Unit {0})) where
    -- The threshold of the configuration is taken to be absent.
    unfoldable pub finalize :
        BudgetConfig F → ℕ → Bytes → Fields → Bytes → Completion → Result (Fields × Fields)
    unfolding validate_config validate_completion owner_record reconcile_pid is_uncertain final_row
        write
    finalize config own now h id c = do
      refuse (not (valid_id id)) "invalid budget reservation identity"
      validate_config fl a (record config { estimated_usd = none })
      validate_completion c
      validate_history a h
      r ← owner_record a own h id
      pid ← reconcile_pid a r c.process_pid
      refuse (not (is_some pid) && (is_some c.exit_code || c.exit_confirmed))
          "pre-spawn failure cannot claim native exit evidence"
      refuse
          (not (is_some pid)
            && (is_uncertain c pid || not (bytes_eq c.outcome (codes "launch_error"))))
          "completion lacks native process ownership"
      let new = final_row now c pid r
      let later = write_row id new h
      write a encoded_length publish later
      ok (new, later)
