-- ===== src/Budget/Observation.antt =====
-- observation.go: the facts of a budget record that other controllers read.
use software_factory_templat.Base.{
  Bool, ◌&&◌, Option, none, List, [], ◌∷◌, Bytes, codes, if◌then◌else◌, Result, ok, ◌>>=◌, ◌>>◌,
  refuse, not,
}
use software_factory_templat.Budget.Json.{Json, Fields, get, is_null, text_of, text_eq}
use software_factory_templat.Budget.Numbers.{Arithmetic, Integer, exact_integer}
use software_factory_templat.Budget.History.{valid_record, validate_history, is_active, rows}

-- `ElapsedSeconds` is its JSON number.
pub record Invocation : Type 0 where
  pub id : Bytes
  pub session : Bytes
  pub task : Bytes
  pub harness : Bytes
  pub role : Bytes
  pub status : Bytes
  pub outcome : Bytes
  pub elapsed : Json
  pub process_pid : Option Integer

abbrev pub pid_of : Arithmetic → Json → Option Integer
pid_of a v = if is_null v then none else exact_integer a v

unfoldable pub observe : Arithmetic → Fields → Result Invocation
unfolding valid_record exact_integer
observe a r = do
  refuse (not (valid_record a r)) "malformed budget history record"
  ok (record {
    id = text_of (get r (codes "id"));
    session = text_of (get r (codes "session"));
    task = text_of (get r (codes "task"));
    harness = text_of (get r (codes "harness"));
    role = text_of (get r (codes "role"));
    status = text_of (get r (codes "status"));
    outcome = text_of (get r (codes "outcome"));
    elapsed = get r (codes "elapsed_seconds");
    process_pid = pid_of a (get r (codes "process_pid"));
  })

abbrev pub is_match : Bytes → Bytes → Fields → Bool
is_match session task r =
    is_active r && text_eq (get r (codes "session")) session && text_eq (get r (codes "task")) task

abbrev pub cons_both : Result Invocation → Result (List Invocation) → Result (List Invocation)
cons_both first rest = do i ← first; is ← rest; ok (i ∷ is)

-- The loop over the rows.
unfoldable pub observe_matching :
    Arithmetic → Bytes → Bytes → List Fields → Result (List Invocation)
unfolding observe
observe_matching a session task [] = ok []
observe_matching a session task (r ∷ rs) =
    let rest = observe_matching a session task rs in
    if is_match session task r then cons_both (observe a r) rest else rest

unfoldable pub matching_active : Arithmetic → Fields → Bytes → Bytes → Result (List Invocation)
unfolding validate_history observe_matching
matching_active a h session task = do validate_history a h; observe_matching a session task (rows h)
