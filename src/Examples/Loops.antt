-- ===== src/Examples/Loops.antt =====
-- A bounded run whose check passes and whose reviewer approves, a manual run, and a long-lived process.
use software_factory_templat.Base.{
  ℕ, ◌+◌, ◌-◌, ◌*◌, ◌≤◌, ◌<◌, max, Bool, true, false, none, some, String, [], ◌∷◌, Bytes, codes,
  All, ◌≡◌, ◌≢◌, refl, arith,
}
use software_factory_templat.Budget.Json.{
  Json, boolean, number, text, array, object, nil, Fields, empty, field,
}
use software_factory_templat.Budget.Numbers.{Arithmetic}
use software_factory_templat.Budget.History.{has_active}
use software_factory_templat.Budget.Observation.{Invocation}
use software_factory_templat.Loop.State.{
  Fingerprint, active, completed, running, manual_passed, starting, Role, implementer, reviewer,
  approve, Row, State, saved, Execution, World, Settings,
}
use software_factory_templat.Loop.Turn.{finished, Turn, go, ended}
use software_factory_templat.Loop.Checkpoint.{save, fresh, finish_run}
use software_factory_templat.Loop.Check.{own_process, is_certain, check_stage}
use software_factory_templat.Loop.Invoke.{invoke, reconcile_rows}
use software_factory_templat.Loop.Runes.{
  Unicode, replace_invalid, diagnostic_text, count_runes, decoded_rune_count, invalid_size,
}
use software_factory_templat.Loop.Runes.Fuel.{IsDecoder, invalid_size-bounds, diagnostic_text-fuel}
use software_factory_templat.Loop.Verdict.{Review, parse_verdict}
use software_factory_templat.Loop.Bounded.{run}
use software_factory_templat.Loop.Holds.{has_ended, is_success}
use software_factory_templat.Loop.Source.{IsAnswered, fresh-IsAccepted}
use software_factory_templat.Loop.Protocol.{implementer_entries, Checked, Steps}
use software_factory_templat.Loop.Contract.{IsContract, parse_verdict-IsContract}
use software_factory_templat.Loop.Approval.{IsApproved}
use software_factory_templat.Loop.Rounds.{IsPaid}
use software_factory_templat.Loop.Runs.{
  run-has_ended, run-IsApproved, run-attempts, run-Steps, run_manual-Checked,
}
use software_factory_templat.Loop.Ownership.{
  own_process-uncertain, IsNoted, Keeps, reconcile_rows-IsNoted,
}

-- A decoder of single bytes.
abbrev decode_byte : Bytes → ℕ × ℕ
decode_byte [] = (65533, 0)
decode_byte (b ∷ s) = (b, 1)

abbrev is_blank_byte : ℕ → Bool
is_blank_byte b = false

abbrev pub unicode : Unicode
unicode = record { decode_rune = decode_byte; is_space = is_blank_byte }

unicode-IsDecoder : IsDecoder unicode
unicode-IsDecoder b s = omega arith

diagnostic_text-fuel_example :
    (replace_invalid unicode 5 (codes "bad") ≡ diagnostic_text unicode (codes "bad"))
    × (count_runes unicode 5 (codes "bad") ≡ decoded_rune_count unicode (codes "bad"))
diagnostic_text-fuel_example =
    diagnostic_text-fuel unicode unicode-IsDecoder 5 (codes "bad") (omega arith)

invalid_size-bounds_example :
    (0 < invalid_size (224 ∷ 160 ∷ 65 ∷ []))
    × (invalid_size (224 ∷ 160 ∷ 65 ∷ []) ≤ 3)
    × (invalid_size (224 ∷ 160 ∷ 65 ∷ []) ≤ 4)
invalid_size-bounds_example = invalid_size-bounds 224 (160 ∷ 65 ∷ [])

-- Stand-ins for math/big and strconv on plain digits.
abbrev number_of : ℕ → Bytes → ℕ
number_of n [] = n
number_of n (c ∷ cs) = number_of (n * 10 + (c - 48)) cs

abbrev pub arithmetic : Arithmetic
arithmetic = record {
  parse = λ s. some (record { negative = false; magnitude = number_of 0 s });
  finite = λ i. true;
  is_negative = λ s. some false;
}

abbrev pub string : String → Json
string s = text (codes s)

abbrev pub with : String → Json → Fields → Fields
with key v m = field (codes key) v m

abbrev pub no_runs : Fields
no_runs = with "schema" (number (codes "1")) (with "runs" (array nil) empty)

-- The ledger's record of an invocation that has completed.
abbrev record_of : String → String → Fields
record_of id role = with "id" (string id) (
    with "session" (string "s1") (
      with "task" (string "t1") (
        with "harness" (string "claude") (
          with "role" (string role) (
            with "status" (string "completed") (
              with "outcome" (string "completed") (
                with "elapsed_seconds" (number (codes "0.0")) (
                  with "reserved_seconds" (number (codes "0.0")) (
                    with "attempt" (number (codes "1")) (
                      with "owner_pid" (number (codes "7")) (
                        with "complete" (boolean true) (
                          with "warnings" (array nil) (
                            with "model" (string "m") (
                              with "started_at" (string "now") (
                                with "ended_at" (string "later")
                                  (with "source" (string "none") empty))))))))))))))))

abbrev answer_of : Role → Fields
answer_of implementer = record_of "run1" "implementer"
answer_of reviewer = record_of "run2" "reviewer"

abbrev pub source : Fingerprint
source = record { head = codes "h"; source = codes "x"; safety = codes "y" }

abbrev execution : Execution
execution = record {
  spawned = some 9;
  process_pid = 9;
  exit_confirmed = true;
  exit_code = some (record { negative = false; magnitude = 0 });
  ownership_unconfirmed = false;
  outcome = codes "completed";
  stdout = [];
  failed = false;
}

abbrev world : World
world = record {
  ended = λ n. false;
  parent_ended = λ n. false;
  observing_ended = λ n. false;
  out_of_time = λ n. false;
  has_allowance = λ n. true;
  write = λ n. saved;
  prompt = λ n. some (codes "p");
  policy = λ n. some (codes "q");
  snapshot = λ n. some source;
  ledger = λ n. some no_runs;
  execute = λ n. execution;
  invoke = λ n role text. record {
    ledger_record = some (answer_of role);
    failed = false;
    ownership = none;
    exit_code = 0;
    response = codes "ok";
  };
  identify = λ n s code output. some (codes "i");
  decode = λ n response.
      some (object (with "verdict" (string "approve") (with "findings" (array nil) empty)));
  encode = λ n findings. some [];
}

abbrev settings : Bool → Settings
settings bounded = record {
  session = codes "s1";
  task = codes "t1";
  harness = codes "claude";
  is_bounded = bounded;
  prompt = codes "do";
  max_attempts = 2;
  no_progress_limit = 2;
}

abbrev row : Row
row = record {
  status = active;
  outcome = running;
  phase = starting;
  attempts = 0;
  no_progress = 0;
  process_pid = none;
  uncertain = false;
  policy = codes "q";
  prompt = codes "p";
  baseline = source;
  snapshot = source;
  evidence = [];
  budget_runs = [];
  stop_reason = [];
  next_action = [];
}

abbrev start : State
start = record { tick = 0; row = row; failed = false }

abbrev state_of : {A : Type 0} → Turn A → State
state_of (go x s) = s
state_of (ended e s) = s

abbrev approved_state : State
approved_state = state_of (run unicode arithmetic world (settings true) 3 start)

run_approves :
    run unicode arithmetic world (settings true) 3 start ≡ ended (finished 0) approved_state
unfolding run fresh save invoke check_stage has_active parse_verdict finish_run
run_approves = refl

unfinished : active ≢ completed
unfinished e = ground (arith, e)

run-has_ended_example : has_ended (run unicode arithmetic world (settings true) 3 start) ≡ true
run-has_ended_example = run-has_ended unicode arithmetic world (settings true) 3 start (omega arith)

run-IsApproved_example :
    (is_success (finished 0) ≡ true → approved_state.row.status ≡ completed)
    × (approved_state.row.status ≡ completed → IsApproved approved_state.row)
run-IsApproved_example =
    run-IsApproved unicode arithmetic world (settings true) 3 start approved_state (finished 0) refl
      unfinished run_approves

run-attempts_example :
    (implementer_entries approved_state.row.evidence ≤ 0 + (2 - 0))
    × (true ≡ false → implementer_entries approved_state.row.evidence ≤ 0)
    × IsPaid row approved_state.row
    × (approved_state.row.attempts ≤ max 0 2)
    × (approved_state.row.baseline ≡ source)
    × (approved_state.row.policy ≡ codes "q")
    × (approved_state.row.prompt ≡ codes "p")
unfolding implementer_entries
run-attempts_example =
    run-attempts unicode arithmetic world (settings true) 3 start approved_state (finished 0)
      run_approves

abbrev manual_state : State
manual_state = state_of (run unicode arithmetic world (settings false) 1 start)

run_passes : run unicode arithmetic world (settings false) 1 start ≡ ended (finished 0) manual_state
unfolding run fresh save check_stage has_active finish_run
run_passes = refl

run_manual-Checked_example :
    (manual_state.row.status ≢ completed)
    × (is_success (finished 0) ≡ true
        → (manual_state.row.outcome ≡ manual_passed)
          × Checked manual_state.row.snapshot manual_state.row.evidence)
run_manual-Checked_example =
    run_manual-Checked unicode arithmetic world (settings false) 1 start manual_state (finished 0)
      refl unfinished run_passes

abbrev fresh_state : State
fresh_state = state_of (fresh world true (some source) start)

fresh_accepts : fresh world true (some source) start ≡ go (some source) fresh_state
unfolding fresh
fresh_accepts = refl

fresh-IsAccepted_example : IsAnswered row (some source) (some source) fresh_state
fresh-IsAccepted_example =
    fresh-IsAccepted world true (some source) (some source) start fresh_state fresh_accepts

abbrev review : Review
review = record { verdict = approve; findings = [] }

abbrev parsed_state : State
parsed_state = state_of (parse_verdict unicode world (codes "ok") start)

verdict_parses : parse_verdict unicode world (codes "ok") start ≡ go (some review) parsed_state
unfolding parse_verdict
verdict_parses = refl

parse_verdict-IsContract_example : (parsed_state.row ≡ start.row) × IsContract unicode world review
parse_verdict-IsContract_example =
    parse_verdict-IsContract unicode world (codes "ok") review start parsed_state verdict_parses

execution_certain : (own_process execution row).uncertain ≡ false
unfolding own_process
execution_certain = refl

own_process-uncertain_example :
    ((own_process execution row).process_pid ≡ none)
    × (false ≡ false)
    × ((0 < 9) → is_certain execution ≡ true)
own_process-uncertain_example = own_process-uncertain execution row execution_certain

abbrev invocation : Invocation
invocation = record {
  id = codes "run1";
  session = codes "s1";
  task = codes "t1";
  harness = codes "claude";
  role = codes "implementer";
  status = codes "active";
  outcome = codes "running";
  elapsed = number (codes "0.0");
  process_pid = some (record { negative = false; magnitude = 42 });
}

reconcile_rows-IsNoted_example :
    All (IsNoted (reconcile_rows none (invocation ∷ []) row)) (invocation ∷ [])
    × Keeps row (reconcile_rows none (invocation ∷ []) row)
    × ((0 < 1) → (reconcile_rows none (invocation ∷ []) row).uncertain ≡ true)
reconcile_rows-IsNoted_example = reconcile_rows-IsNoted none (invocation ∷ []) row

run-Steps_example : Steps [] approved_state.row.evidence
run-Steps_example =
    run-Steps unicode arithmetic world (settings true) 3 start approved_state (finished 0)
      run_approves
