-- ===== src/Loop/History.antt =====
-- history.go: the validation of the checkpoints, Lookup and HasUnresolved. `Arithmetic` stands for
-- math/big and strconv, as in the budget.
pub mod Pairs
use software_factory_templat.Base.{
  Bool, true, false, not, ◌&&◌, ◌||◌, ◌==◌, Option, none, some, List, [], ◌∷◌, Bytes, codes,
  bytes_eq, contains_byte, if◌then◌else◌, Result, ok, err, ◌>>=◌, ◌>>◌, refuse,
}
use software_factory_templat.Budget.Json.{
  Json, null, boolean, number, text, array, object, Items, nil, cons, Fields, empty, field, get,
  is_null, text_of, is_text, text_eq,
}
use software_factory_templat.Budget.Numbers.{Arithmetic, Integer, valid_amount}
use software_factory_templat.Budget.Domain.{valid_id, one_of, harness}
use software_factory_templat.Budget.History.{
  is_boolean, is_true, is_active, is_one, rows, any_row, valid_identity,
}
use software_factory_templat.Loop.State.{Fingerprint}
use software_factory_templat.Loop.Check.{has_value}
use software_factory_templat.Loop.Verdict.{count_fields}

abbrev pub has_fraction : Bytes → Bool
has_fraction n = contains_byte b'.' n || contains_byte b'e' n || contains_byte b'E' n

-- `strings.Contains(s, sub)`
abbrev pub starts_with : Bytes → Bytes → Bool
starts_with [] s = true
starts_with (x ∷ xs) [] = false
starts_with (x ∷ xs) (y ∷ ys) = (x == y) && starts_with xs ys

abbrev pub contains_text : Bytes → Bytes → Bool
contains_text sub [] = starts_with sub []
contains_text sub (y ∷ ys) = starts_with sub (y ∷ ys) || contains_text sub ys

abbrev pub is_array : Json → Bool
is_array (array xs) = true
is_array null = false
is_array (boolean b) = false
is_array (number n) = false
is_array (text s) = false
is_array (object m) = false

abbrev pub fingerprint_of : Fields → Option Fingerprint
fingerprint_of m =
    if (count_fields m == 3)
      && is_text (get m (codes "head"))
      && is_text (get m (codes "source"))
      && is_text (get m (codes "safety"))
    then some (record {
      head = text_of (get m (codes "head"));
      source = text_of (get m (codes "source"));
      safety = text_of (get m (codes "safety"));
    })
    else none

unfoldable pub fingerprint : Json → Option Fingerprint
fingerprint (object m) = fingerprint_of m
fingerprint null = none
fingerprint (boolean b) = none
fingerprint (number n) = none
fingerprint (text s) = none
fingerprint (array xs) = none

abbrev pub is_positive : Option Integer → Bool
is_positive none = false
is_positive (some i) = not i.negative && not (i.magnitude == 0)

-- The keys of a row that hold text.
abbrev pub text_keys : List Bytes
text_keys =
    codes "policy"
    ∷ codes "prompt"
    ∷ codes "started_at"
    ∷ codes "phase"
    ∷ codes "outcome"
    ∷ codes "stop_reason"
    ∷ codes "next_action"
    ∷ []

abbrev pub all_text_keys : Fields → List Bytes → Bool
all_text_keys r [] = true
all_text_keys r (k ∷ ks) = is_text (get r k) && all_text_keys r ks

abbrev pub has_sign : Option Bool → Bool
has_sign none = false
has_sign (some negative) = true

-- The pair that tells one run from another.
abbrev pub is_run : (session task : Bytes) → Fields → Bool
is_run session task r =
    text_eq (get r (codes "session")) session && text_eq (get r (codes "task")) task

abbrev pub session_of : Fields → Bytes
session_of r = text_of (get r (codes "session"))

abbrev pub task_of : Fields → Bytes
task_of r = text_of (get r (codes "task"))

-- `seen[key]`
abbrev pub is_seen : List (Bytes × Bytes) → Fields → Bool
is_seen [] r = false
is_seen ((session, task) ∷ seen) r =
    (bytes_eq session (session_of r) && bytes_eq task (task_of r)) || is_seen seen r

-- The first row of a run.
abbrev pub find_run : (session task : Bytes) → List Fields → Result Fields
find_run session task [] = err "loop checkpoint not found"
find_run session task (r ∷ rs) = if is_run session task r then ok r else find_run session task rs

abbrev pub is_open : Fields → Bool
is_open r = is_active r || is_true (get r (codes "uncertain"))

module _ (a : Arithmetic) where
  unfoldable pub integer : Json → Option Integer
  integer (number n) = if has_fraction n then none else a.parse n
  integer null = none
  integer (boolean b) = none
  integer (text s) = none
  integer (array xs) = none
  integer (object m) = none

  unfoldable pub nonnegative : Json → (require_integer : Bool) → Bool
  unfolding integer valid_amount
  nonnegative v true = has_value (integer v) && valid_amount a v
  nonnegative v false = valid_amount a v

  -- A number that is not an integer is finite.
  abbrev pub finite_number : Bytes → Bool
  finite_number n =
      if has_fraction n || bytes_eq n (codes "NaN") || contains_text (codes "Infinity") n
      then has_sign (a.is_negative n)
      else true

  unfoldable mutual
    pub finite_value : Json → Bool
    finite_value (number n) = finite_number n
    finite_value (array xs) = finite_items xs
    finite_value (object m) = finite_fields m
    finite_value null = true
    finite_value (boolean b) = true
    finite_value (text s) = true

    pub finite_items : Items → Bool
    finite_items nil = true
    finite_items (cons v vs) = finite_value v && finite_items vs

    pub finite_fields : Fields → Bool
    finite_fields empty = true
    finite_fields (field k v m) = finite_value v && finite_fields m

  -- One row of validateHistory, but for the pair that must be new.
  unfoldable pub valid_checkpoint : Fields → Bool
  unfolding nonnegative fingerprint valid_id harness
  valid_checkpoint r =
      valid_identity r (codes "session")
      && valid_identity r (codes "task")
      && harness (text_of (get r (codes "harness")))
      && one_of (codes "manual" ∷ codes "bounded" ∷ []) (text_of (get r (codes "mode")))
      && one_of (codes "active" ∷ codes "stopped" ∷ codes "completed" ∷ [])
          (text_of (get r (codes "status")))
      && is_array (get r (codes "evidence"))
      && is_array (get r (codes "budget_runs"))
      && nonnegative (get r (codes "attempts")) true
      && nonnegative (get r (codes "no_progress")) true
      && nonnegative (get r (codes "elapsed_seconds")) false
      && nonnegative (get r (codes "reserved_seconds")) false
      && all_text_keys r text_keys
      && has_value (fingerprint (get r (codes "snapshot")))
      && has_value (fingerprint (get r (codes "baseline")))
      && is_positive (integer (get r (codes "owner_pid")))
      && (is_null (get r (codes "process_pid"))
          || is_positive (integer (get r (codes "process_pid"))))
      && is_boolean (get r (codes "uncertain"))

  -- The loop over the runs.
  unfoldable pub validate_checkpoint_runs : Items → List (Bytes × Bytes) → Result (Unit {0})
  unfolding valid_checkpoint
  validate_checkpoint_runs nil seen = ok tt
  validate_checkpoint_runs (cons (object r) rest) seen = do
    refuse (is_seen seen r || not (valid_checkpoint r)) "invalid loop checkpoint"
    validate_checkpoint_runs rest ((session_of r, task_of r) ∷ seen)
  validate_checkpoint_runs (cons null rest) seen = err "invalid loop checkpoint"
  validate_checkpoint_runs (cons (boolean b) rest) seen = err "invalid loop checkpoint"
  validate_checkpoint_runs (cons (number n) rest) seen = err "invalid loop checkpoint"
  validate_checkpoint_runs (cons (text s) rest) seen = err "invalid loop checkpoint"
  validate_checkpoint_runs (cons (array xs) rest) seen = err "invalid loop checkpoint"

  abbrev pub validate_checkpoint_list : Json → Result (Unit {0})
  validate_checkpoint_list (array runs) = validate_checkpoint_runs runs []
  validate_checkpoint_list null = err "invalid loop checkpoint"
  validate_checkpoint_list (boolean b) = err "invalid loop checkpoint"
  validate_checkpoint_list (number n) = err "invalid loop checkpoint"
  validate_checkpoint_list (text s) = err "invalid loop checkpoint"
  validate_checkpoint_list (object m) = err "invalid loop checkpoint"

  -- validateHistory
  unfoldable pub validate_checkpoints : Fields → Result (Unit {0})
  unfolding validate_checkpoint_runs integer finite_value
  validate_checkpoints h = do
    refuse (not (is_one (integer (get h (codes "schema"))))) "invalid loop checkpoint"
    validate_checkpoint_list (get h (codes "runs"))
    refuse (not (finite_fields h)) "invalid loop checkpoint"

  unfoldable pub lookup : Fields → (session task : Bytes) → Result Fields
  unfolding validate_checkpoints valid_id
  lookup h session task = do
    refuse (not (valid_id session && valid_id task)) "invalid loop checkpoint"
    validate_checkpoints h
    find_run session task (rows h)

  -- HasUnresolved
  unfoldable pub has_unresolved_run : Fields → Result Bool
  unfolding validate_checkpoints
  has_unresolved_run h = do
    validate_checkpoints h
    ok (any_row (λ r. is_open r || not (is_null (get r (codes "process_pid")))) (rows h))
