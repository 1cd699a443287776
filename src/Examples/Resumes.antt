-- ===== src/Examples/Resumes.antt =====
-- A checkpoint file with one manual run that has passed, which is resumed.
use software_factory_templat.Base.{ℕ, Bool, true, false, codes, ok, All, ◌≡◌, refl}
use software_factory_templat.Budget.Json.{
  Json, boolean, number, array, object, nil, cons, Fields, empty, get,
}
use software_factory_templat.Budget.History.{has_active, rows}
use software_factory_templat.Loop.History.{is_open, validate_checkpoints, lookup}
use software_factory_templat.Loop.History.Pairs.{
  IsCheckpoints, IsOnly, validate_checkpoints-IsCheckpoints, lookup-IsOnly,
}
use software_factory_templat.Loop.Resume.{ResumeRequest, is_spent, assess_resume}
use software_factory_templat.Loop.Resume.Eligible.{IsUnchanged, assess_resume-IsUnchanged}
use software_factory_templat.Examples.Loops.{arithmetic, string, with, no_runs, source}

abbrev fingerprint_json : Json
fingerprint_json =
    object
      (with "head" (string "h") (with "source" (string "x") (with "safety" (string "y") empty)))

abbrev passed_run : Fields
passed_run = with "session" (string "s1") (
    with "task" (string "t1") (
      with "harness" (string "claude") (
        with "mode" (string "manual") (
          with "status" (string "stopped") (
            with "outcome" (string "manual_passed") (
              with "phase" (string "finished") (
                with "owner_pid" (number (codes "7")) (
                  with "started_at" (string "now") (
                    with "elapsed_seconds" (number (codes "2")) (
                      with "reserved_seconds" (number (codes "60")) (
                        with "attempts" (number (codes "0")) (
                          with "no_progress" (number (codes "0")) (
                            with "uncertain" (boolean false) (
                              with "baseline" fingerprint_json (
                                with "snapshot" fingerprint_json (
                                  with "policy" (string "q") (
                                    with "prompt" (string "p") (
                                      with "evidence" (array nil) (
                                        with "budget_runs" (array nil) (
                                          with "stop_reason" (string "done") (
                                            with "next_action" (string "none")
                                              empty)))))))))))))))))))))

abbrev checkpoints : Fields
checkpoints =
    with "schema" (number (codes "1")) (with "runs" (array (cons (object passed_run) nil)) empty)

abbrev never : ℕ → Bool
never n = false

abbrev request : ResumeRequest
request = record {
  session = codes "s1";
  task = codes "t1";
  harness = codes "claude";
  mode = codes "manual";
  snapshot = source;
  policy = codes "q";
  prompt = codes "p";
  timeout = record {
    is_valid = true;
    is_reached = λ i. never i.magnitude;
    is_reached_by = λ n. false;
  };
}

checkpoints_valid : validate_checkpoints arithmetic checkpoints ≡ ok tt
unfolding validate_checkpoints
checkpoints_valid = refl

validate_checkpoints-IsCheckpoints_example : IsCheckpoints arithmetic (rows checkpoints)
validate_checkpoints-IsCheckpoints_example =
    validate_checkpoints-IsCheckpoints arithmetic checkpoints checkpoints_valid

run_found : lookup arithmetic checkpoints (codes "s1") (codes "t1") ≡ ok passed_run
unfolding lookup
run_found = refl

lookup-IsOnly_example : IsOnly arithmetic (codes "s1") (codes "t1") passed_run (rows checkpoints)
lookup-IsOnly_example =
    lookup-IsOnly arithmetic checkpoints (codes "s1") (codes "t1") passed_run run_found

run_resumes : assess_resume arithmetic checkpoints no_runs request ≡ ok passed_run
unfolding assess_resume
run_resumes = refl

assess_resume-IsUnchanged_example :
    (has_active arithmetic no_runs ≡ ok false)
    × All (λ q. is_open q ≡ false) (rows checkpoints)
    × IsOnly arithmetic (codes "s1") (codes "t1") passed_run (rows checkpoints)
    × IsUnchanged request passed_run
    × (is_spent arithmetic request.timeout (get passed_run (codes "elapsed_seconds")) ≡ false)
assess_resume-IsUnchanged_example =
    assess_resume-IsUnchanged arithmetic checkpoints no_runs request passed_run run_resumes
