-- ===== src/Examples/Reviews.antt =====
-- A plan of three batches, one of them cached, reviewed by two workers.
use software_factory_templat.Base.{
  ◌≤◌, ◌+◌, true, false, Option, none, some, List, [], ◌∷◌, Bytes, codes, bytes_eq, ◌≡◌, refl,
  String, All, arith, if◌then◌else◌,
}
use software_factory_templat.ReviewBatch.Types.{Batch, FileCoverage, planned, complete, unreviewed}
use software_factory_templat.ReviewBatch.Admission.{
  Budget, Admission, IsWithin, reserve, Answers, reserve-Answers,
}
use software_factory_templat.ReviewBatch.Coverage.{Report, update_coverage}
use software_factory_templat.ReviewBatch.Coverage.Complete.{IsCovered, update_coverage-IsCovered}
use software_factory_templat.ReviewBatch.Execute.{
  Run, Event, checked, opened, dispatched, attempted, finished, collected, new_run, run_batches,
}
use software_factory_templat.ReviewBatch.Execute.Attempts.{total_attempts}
use software_factory_templat.ReviewBatch.Execute.Limits.{
  IsRun, run_batches-IsRun, run_batches-attempts, new_run-IsRun,
}
use software_factory_templat.ReviewBatch.Execute.Stopped.{IsHalted, run_batches-IsHalted}
use software_factory_templat.ReviewBatch.Execute.Conclude.{IsDone, execute, execute-IsDone}

abbrev new_batch : String → Batch
new_batch name = record {
  id = codes name;
  files = codes "a.go" ∷ [];
  fragments = codes name ∷ [];
  status = planned;
  cached = false;
  findings = [];
  error = none;
  patch = codes name;
}

abbrev batches : List Batch
batches = new_batch "x" ∷ new_batch "y" ∷ new_batch "z" ∷ []

abbrev files : List FileCoverage
files =
    record {
      path = codes "a.go";
      status = unreviewed;
      fragments = codes "x" ∷ codes "y" ∷ codes "z" ∷ [];
      error = none;
    }
    ∷ []

abbrev report : Report
report = record {
  status = planned;
  error = none;
  files_total = 1;
  batches_planned = 3;
  batches = batches;
  files = files;
  batches_completed = 0;
  batches_cached = 0;
  fragments_reviewed = 0;
  files_reviewed = 0;
}

abbrev cache : Bytes → Option Bytes
cache id = if bytes_eq id (codes "y") then some (codes "No findings.") else none

abbrev request : Batch → Bytes
request b = b.patch

abbrev allowance : Budget
allowance = record {
  requests_used = 0;
  max_requests = 3;
  tokens_reserved = 0;
  max_tokens = 100;
  input_reserved = 0;
  max_input = 100;
}

within : IsWithin allowance
within = (omega arith, omega arith, omega arith)

abbrev admission : Admission
admission = record { budget = allowance; stopped = false }

abbrev events : List Event
events =
    checked
    ∷ opened
    ∷ dispatched
    ∷ checked
    ∷ opened
    ∷ dispatched
    ∷ attempted 0 false 10 20
    ∷ attempted 1 false 10 20
    ∷ attempted 1 false 10 20
    ∷ finished 1 false false 12 (codes "No findings.")
    ∷ finished 0 false false 12 (codes "No findings.")
    ∷ collected
    ∷ collected
    ∷ []

run_ends_complete : (execute cache request 2 8 false admission events report).status ≡ complete
unfolding execute run_batches new_run
run_ends_complete = refl

execute-IsDone_example :
    All
      (IsDone (execute cache request 2 8 false admission events report).batches)
      (execute cache request 2 8 false admission events report).files
execute-IsDone_example =
    execute-IsDone cache request 2 8 false admission events report refl run_ends_complete

run_batches-attempts_example :
    0 + total_attempts (run_batches request 2 events (new_run cache admission batches)) ≤ 3
run_batches-attempts_example = run_batches-attempts request 2 allowance cache batches events within

run_batches-IsRun_example :
    IsRun 2 allowance (run_batches request 2 events (new_run cache admission batches))
run_batches-IsRun_example =
    run_batches-IsRun request 2 allowance events (new_run cache admission batches)
      (new_run-IsRun request 2 allowance cache batches within)

-- The first worker fails after the coordinator has passed its check for the second batch.
abbrev stopped_run : Run
stopped_run =
    run_batches request 2
      (checked ∷ opened ∷ dispatched ∷ checked ∷ opened ∷ finished 0 true false 0 [] ∷ [])
      (new_run cache admission batches)

abbrev later_events : List Event
later_events = dispatched ∷ collected ∷ checked ∷ opened ∷ dispatched ∷ []

one_batch_left : stopped_run.pending ≡ 2 ∷ []
unfolding run_batches new_run
one_batch_left = refl

run_batches-IsHalted_example : IsHalted stopped_run (run_batches request 2 later_events stopped_run)
unfolding run_batches new_run
run_batches-IsHalted_example = run_batches-IsHalted request 2 later_events stopped_run refl

last_batch_taken : (run_batches request 2 later_events stopped_run).pending ≡ []
unfolding run_batches new_run
last_batch_taken = refl

update_coverage-IsCovered_example : All (IsCovered batches) (update_coverage report).files
update_coverage-IsCovered_example = update_coverage-IsCovered report

reserve-Answers_example :
    Answers false 10 20 admission
      (reserve false 10 20 admission).0
      (reserve false 10 20 admission).1
reserve-Answers_example = reserve-Answers false 10 20 admission
