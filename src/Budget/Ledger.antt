-- ===== src/Budget/Ledger.antt =====
-- lifecycle.go and storage.go: the owner of an active row, and the publication of its process.
pub mod Publish
use software_factory_templat.Base.{
  ℕ, ◌+◌, ◌-◌, ◌^◌, Bool, true, false, not, ◌&&◌, ◌||◌, Option, none, some, List, [], ◌∷◌, Bytes,
  codes, bytes_eq, ltb, leb, ◌==◌, if◌then◌else◌, Result, ok, err, ◌>>=◌, ◌>>◌, refuse,
}
use software_factory_templat.Base.Decimal.{decimal}
use software_factory_templat.Budget.Json.{
  Json, null, boolean, number, text, array, object, Items, nil, cons, Fields, empty, field, get,
  put, is_null, text_eq,
}
use software_factory_templat.Budget.Numbers.{Arithmetic, Integer, exact_integer, native}
use software_factory_templat.Budget.Domain.{valid_id}
use software_factory_templat.Budget.History.{is_active, fields_of, runs_of, rows, validate_history}

-- `math.MaxInt32`
abbrev pub max_pid : ℕ
max_pid = 2 ^ 31 - 1

abbrev pub is_native : ℕ → Option ℕ → Bool
is_native own none = false
is_native own (some n) = n == own

abbrev pub has_id : Bytes → Fields → Bool
has_id id r = text_eq (get r (codes "id")) id

-- `pid <= 0 || int64(pid) > math.MaxInt32`; the model's 0 stands for every int that is not positive.
abbrev pub bad_pid : ℕ → Bool
bad_pid pid = pid == 0 || ltb max_pid pid

-- `json.Number(…String())`
abbrev pub pid_number : Option ℕ → Json
pid_number none = null
pid_number (some pid) = number (decimal pid)

-- A write to the fields of the first row that has the identity, which the runs share with `row`.
abbrev pub write_first : Bytes → Fields → Items → Items
write_first id new nil = nil
write_first id new (cons v vs) =
    if has_id id (fields_of v) then cons (object new) vs else cons v (write_first id new vs)

abbrev pub write_row : Bytes → Fields → Fields → Fields
write_row id new h =
    put h (codes "runs") (array (write_first id new (runs_of (get h (codes "runs")))))

-- `own` is `os.Getpid()`.
module _ (a : Arithmetic) (own : ℕ) where
  abbrev pub is_owner : Fields → Bool
  is_owner r = is_native own (native a (exact_integer a (get r (codes "owner_pid")))) && is_active r

  unfoldable pub find_owner : Bytes → List Fields → Result Fields
  find_owner id [] = err "active budget reservation disappeared; preserve history and investigate"
  find_owner id (r ∷ rs) =
      if has_id id r
      then if is_owner r
        then ok r
        else err "budget reservation is completed or owned by another process"
      else find_owner id rs

  unfoldable pub owner_record : Fields → Bytes → Result Fields
  unfolding find_owner valid_id
  owner_record h id =
      refuse (not (valid_id id)) "invalid budget reservation identity" >> find_owner id (rows h)

-- The recorded process, which must be one and the same as the given one.
abbrev pub agree : Option ℕ → Option ℕ → Result (Option ℕ)
agree none input = err "invalid recorded native process identity"
agree (some stored) none =
    if bad_pid stored then err "invalid recorded native process identity" else ok (some stored)
agree (some stored) (some pid) =
    if bad_pid stored
    then err "invalid recorded native process identity"
    else if stored == pid
    then ok (some stored)
    else err "conflicting native process identity"

abbrev pub is_bad_input : Option ℕ → Bool
is_bad_input none = false
is_bad_input (some pid) = bad_pid pid

module _ (a : Arithmetic) where
  unfoldable pub reconcile_pid : Fields → Option ℕ → Result (Option ℕ)
  unfolding exact_integer
  reconcile_pid r input =
      refuse (is_bad_input input) "invalid native process identity"
      >> (if is_null (get r (codes "process_pid"))
          then ok input
          else agree (native a (exact_integer a (get r (codes "process_pid")))) input)

  -- `s.write`: `encoded_length` is that of json.Marshal, and `publish` is the state file's publication.
  module _ (encoded_length : Fields → ℕ) (publish : Fields → Result (Unit {0})) where
    abbrev pub history_limit : ℕ
    history_limit = 33554432

    unfoldable pub write : Fields → Result (Unit {0})
    unfolding validate_history
    write h = do
      validate_history a h
      refuse (ltb history_limit (encoded_length h + 1)) "budget history exceeds its encoded limit"
      publish h

    abbrev pub publish_new : Fields → Bytes → Fields → Option ℕ → Result (Fields × Fields)
    publish_new h id r effective = do
      let new = put r (codes "process_pid") (pid_number effective)
      let later = write_row id new h
      write later
      ok (new, later)

    -- `PublishPID` on the ledger `h` that the lock guards: the row it returns, and the ledger after it.
    unfoldable pub publish_pid : ℕ → Fields → Bytes → ℕ → Result (Fields × Fields)
    unfolding owner_record reconcile_pid write
    publish_pid own h id pid = do
      refuse (not (valid_id id) || bad_pid pid) "invalid budget process publication"
      validate_history a h
      r ← owner_record a own h id
      effective ← reconcile_pid r (some pid)
      if is_null (get r (codes "process_pid")) then publish_new h id r effective else ok (r, h)
