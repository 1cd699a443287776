-- ===== src/Budget/History.antt =====
-- history.go: the validation of a ledger, and what it tells about active runs.
pub mod Unique
use software_factory_templat.Base.{
  ℕ, Bool, true, false, not, ◌&&◌, ◌||◌, Option, none, some, List, [], ◌∷◌, ◌++◌, Bytes, codes,
  bytes_eq, ◌==◌, if◌then◌else◌, Result, ok, err, ◌>>=◌, ◌>>◌, refuse,
}
use software_factory_templat.Budget.Json.{
  Json, null, boolean, number, text, array, object, Items, nil, cons, Fields, empty, field, get,
  has, is_null, text_of, is_text, text_eq,
}
use software_factory_templat.Budget.Numbers.{
  Arithmetic, Integer, exact_integer, checked_integer, valid_amount,
}
use software_factory_templat.Budget.Domain.{valid_id, one_of, harness, role, valid_outcome}

-- `_, ok := v.(bool)`, and its value
abbrev pub is_boolean : Json → Bool
is_boolean (boolean b) = true
is_boolean null = false
is_boolean (number n) = false
is_boolean (text s) = false
is_boolean (array xs) = false
is_boolean (object m) = false

abbrev pub is_true : Json → Bool
is_true (boolean b) = b
is_true null = false
is_true (number n) = false
is_true (text s) = false
is_true (array xs) = false
is_true (object m) = false

abbrev pub all_text : Items → Bool
all_text nil = true
all_text (cons v vs) = is_text v && all_text vs

-- `warnings`
abbrev pub valid_warnings : Json → Bool
valid_warnings (array xs) = all_text xs
valid_warnings null = false
valid_warnings (boolean b) = false
valid_warnings (number n) = false
valid_warnings (text s) = false
valid_warnings (object m) = false

abbrev pub is_active : Fields → Bool
is_active r = text_eq (get r (codes "status")) (codes "active")

-- `key` holds an identity.
abbrev pub valid_identity : Fields → Bytes → Bool
valid_identity r key = is_text (get r key) && valid_id (text_of (get r key))

abbrev pub is_some_integer : Option Integer → Bool
is_some_integer none = false
is_some_integer (some i) = true

-- `id := row["id"].(string)`
abbrev pub id_of : Fields → Bytes
id_of r = text_of (get r (codes "id"))

abbrev pub is_one : Option Integer → Bool
is_one none = false
is_one (some i) = not i.negative && i.magnitude == 1

module _ (a : Arithmetic) where
  abbrev pub all_counts : Fields → Bool
  all_counts empty = true
  all_counts (field k v m) = checked_integer a v true && all_counts m

  abbrev pub valid_tokens : Json → Bool
  valid_tokens null = true
  valid_tokens (object m) = all_counts m
  valid_tokens (boolean b) = false
  valid_tokens (number n) = false
  valid_tokens (text s) = false
  valid_tokens (array xs) = false

  -- The last part of `validateRecord`: what an active and what a completed row must have.
  unfoldable pub valid_status : Fields → Bool
  valid_status r =
      let outcome = text_of (get r (codes "outcome")) in
      let running = bytes_eq outcome (codes "running") in
      if is_active r
      then (running
          || bytes_eq outcome (codes "timeout")
          || bytes_eq outcome (codes "launch_error"))
        && is_null (get r (codes "ended_at"))
        && (running
            || (has r (codes "estimated_usd")
                && has r (codes "tokens")
                && not (is_null (get r (codes "process_pid")))
                && is_null (get r (codes "exit_code"))
                && not (is_true (get r (codes "complete")))
                && is_null (get r (codes "estimated_usd"))
                && is_null (get r (codes "tokens"))))
      else is_text (get r (codes "ended_at")) && not running

  -- `validateRecord`, which has one error.
  unfoldable pub valid_record : Fields → Bool
  unfolding valid_status checked_integer valid_amount harness role valid_outcome valid_id
  valid_record r =
      valid_identity r (codes "id")
      && valid_identity r (codes "session")
      && valid_identity r (codes "task")
      && harness (text_of (get r (codes "harness")))
      && role (text_of (get r (codes "role")))
      && one_of (codes "active" ∷ codes "completed" ∷ []) (text_of (get r (codes "status")))
      && valid_outcome (text_of (get r (codes "outcome"))) true
      && valid_amount a (get r (codes "elapsed_seconds"))
      && valid_amount a (get r (codes "reserved_seconds"))
      && checked_integer a (get r (codes "attempt")) false
      && checked_integer a (get r (codes "owner_pid")) false
      && is_boolean (get r (codes "complete"))
      && (is_null (get r (codes "estimated_usd")) || valid_amount a (get r (codes "estimated_usd")))
      && valid_warnings (get r (codes "warnings"))
      && valid_tokens (get r (codes "tokens"))
      && (is_null (get r (codes "process_pid"))
          || checked_integer a (get r (codes "process_pid")) false)
      && (is_null (get r (codes "exit_code"))
          || is_some_integer (exact_integer a (get r (codes "exit_code"))))
      && is_text (get r (codes "model"))
      && is_text (get r (codes "started_at"))
      && is_text (get r (codes "source"))
      && valid_status r

  -- The loop over the runs; `seen` holds the identities so far.
  unfoldable pub validate_runs : Items → List Bytes → Result (Unit {0})
  unfolding valid_record
  validate_runs nil seen = ok tt
  validate_runs (cons (object r) rest) seen = do
    refuse (not (valid_record r)) "malformed budget history record"
    refuse (one_of seen (id_of r)) "duplicate budget run identity"
    validate_runs rest (id_of r ∷ seen)
  validate_runs (cons null rest) seen = err "malformed budget history run"
  validate_runs (cons (boolean b) rest) seen = err "malformed budget history run"
  validate_runs (cons (number n) rest) seen = err "malformed budget history run"
  validate_runs (cons (text s) rest) seen = err "malformed budget history run"
  validate_runs (cons (array xs) rest) seen = err "malformed budget history run"

  abbrev pub validate_list : Json → Result (Unit {0})
  validate_list (array runs) = validate_runs runs []
  validate_list null = err "malformed budget history runs"
  validate_list (boolean b) = err "malformed budget history runs"
  validate_list (number n) = err "malformed budget history runs"
  validate_list (text s) = err "malformed budget history runs"
  validate_list (object m) = err "malformed budget history runs"

  unfoldable pub validate_history : Fields → Result (Unit {0})
  unfolding validate_runs exact_integer
  validate_history h = do
    refuse (not (is_one (exact_integer a (get h (codes "schema")))))
        "unsupported or malformed budget history schema"
    validate_list (get h (codes "runs"))

-- `row, _ := value.(map[string]any)`
abbrev pub fields_of : Json → Fields
fields_of (object m) = m
fields_of null = empty
fields_of (boolean b) = empty
fields_of (number n) = empty
fields_of (text s) = empty
fields_of (array xs) = empty

abbrev pub item_rows : Items → List Fields
item_rows nil = []
item_rows (cons v vs) = fields_of v ∷ item_rows vs

-- `values, _ := h.data["runs"].([]any)`
abbrev pub runs_of : Json → Items
runs_of (array xs) = xs
runs_of null = nil
runs_of (boolean b) = nil
runs_of (number n) = nil
runs_of (text s) = nil
runs_of (object m) = nil

abbrev pub rows : Fields → List Fields
rows h = item_rows (runs_of (get h (codes "runs")))

abbrev pub any_row : (Fields → Bool) → List Fields → Bool
any_row test [] = false
any_row test (r ∷ rs) = test r || any_row test rs

abbrev pub is_unresolved : Fields → Bool
is_unresolved r =
    is_active r
    || (not (is_null (get r (codes "process_pid"))) && is_null (get r (codes "exit_code")))

unfoldable pub has_active : Arithmetic → Fields → Result Bool
unfolding validate_history
has_active a h = do validate_history a h; ok (any_row is_active (rows h))

unfoldable pub has_unresolved : Arithmetic → Fields → Result Bool
unfolding validate_history
has_unresolved a h = do validate_history a h; ok (any_row is_unresolved (rows h))
