-- ===== src/ReviewBatch/Execute/Conclude.antt =====
-- `execute` of command.go: the report's final status, and what `complete` means.
use software_factory_templat.Base.{
  ℕ, suc, ◌≤◌, Bool, true, false, ◌&&◌, ◌||◌, Option, none, some, String, List, [], ◌∷◌, ltb, ◌==◌,
  if◌then◌else◌, Bytes, length, All, ◌≡◌, ◌≢◌, refl, inl, inr, arith, Bool-cases, ==_iff,
}
use software_factory_templat.ReviewBatch.Types.{
  Status, Batch, FileCoverage, planned, complete, partial, failed, skipped, unreviewed,
  unreviewable,
}
use software_factory_templat.ReviewBatch.Admission.{Admission}
use software_factory_templat.ReviewBatch.Coverage.{
  Report, update_coverage, update_files, reviewed, count_files, is_complete,
}
use software_factory_templat.ReviewBatch.Coverage.Complete.{
  IsReviewed, IsCovered, update_coverage-IsCovered,
}
use software_factory_templat.ReviewBatch.Execute.{Outcome, Run, Event, new_run, run_batches}

-- The last loop of `execute`.
abbrev pub skip_planned : Status → Batch → Batch
skip_planned planned b = record b {
  status = skipped;
  error = some "not attempted after an incomplete batch";
}
skip_planned complete b = b
skip_planned partial b = b
skip_planned unreviewed b = b
skip_planned unreviewable b = b
skip_planned failed b = b
skip_planned skipped b = b

unfoldable pub skip_rest : List Batch → List Batch
skip_rest [] = []
skip_rest (b ∷ bs) = skip_planned b.status b ∷ skip_rest bs

-- `r.Error` after `runBatches`: the outcomes' first attempted failure, then the first batch's.
abbrev pub or_else : Option String → Option String → Option String
or_else none e = e
or_else (some e) f = some e

-- `complete`
unfoldable pub all_complete : Report → Bool
all_complete r =
    r.files_reviewed == r.files_total
    && ltb 0 r.files_total
    && r.batches_completed == r.batches_planned

-- The `switch`.
abbrev pub final_status : (canceled all any : Bool) → Status
final_status canceled all any =
    if canceled && all
    then failed
    else (if all then complete else (if any then partial else failed))

-- The `switch` and the last loop.
unfoldable pub conclude : (canceled : Bool) → Report → Report
unfolding skip_rest all_complete
conclude canceled r = record r {
  status = final_status canceled (all_complete r) (ltb 0 r.batches_completed);
  error =
      if canceled && all_complete r
      then some "review canceled or total deadline exceeded"
      else r.error;
  batches = skip_rest r.batches;
}

unfoldable pub give_up : Status → String → Report → Report
give_up s e r = record r { status = s; error = some e }

-- `result.attempts != 0` for the outcome of batch `i`
abbrev pub was_attempted : ℕ → List Outcome → Bool
was_attempted i [] = false
was_attempted i (o ∷ os) = (o.index == i && ltb 0 o.attempts) || was_attempted i os

-- The loop over `outcomes`.
unfoldable pub attempted_error : List Outcome → ℕ → List Batch → Option String
attempted_error os i [] = none
attempted_error os i (b ∷ bs) =
    if was_attempted i os
    then or_else b.error (attempted_error os (suc i) bs)
    else attempted_error os (suc i) bs

-- The loop over `r.Batches`.
unfoldable pub first_error : List Batch → Option String
first_error [] = none
first_error (b ∷ bs) = or_else b.error (first_error bs)

-- What `runBatches` leaves in the report.
unfoldable pub run_report : Run → Report → Report
unfolding attempted_error first_error
run_report run r = record r {
  batches = run.batches;
  error =
      if run.canceled
      then some "review canceled or total deadline exceeded"
      else or_else r.error
          (or_else (attempted_error run.outcomes 0 run.batches) (first_error run.batches));
}

-- The environment of `execute`: `load` reads the cache, `request` is the JSON request of a batch, and
-- `events` is the interleaving that happens. `blank` is `strings.TrimSpace(key) == ""`.
module _ (load : Bytes → Option Bytes) (request : Batch → Bytes) (parallelism max_batches : ℕ)
    (blank : Bool) (admission : Admission) (events : List Event) where
  abbrev pub final_run : Report → Run
  final_run r = run_batches request parallelism events (new_run load admission r.batches)

  unfoldable pub execute : Report → Report
  unfolding give_up conclude run_report update_coverage
  execute r =
      if length r.batches == 0
      then give_up skipped "no text-reviewable changes; uncovered items are listed" r
      else (if ltb max_batches (length r.batches)
          then give_up skipped
              "planned batches exceed REVIEW_MAX_BATCHES; increase the explicit allowance or review a smaller change"
              r
          else (if blank
              then give_up failed "missing review API key" r
              else conclude (final_run r).canceled (update_coverage (run_report (final_run r) r))))

skip_planned_complete : (s : Status) (b : Batch) → is_complete s ≡ true → skip_planned s b ≡ b
skip_planned_complete complete b h = refl
skip_planned_complete planned b h = cc
skip_planned_complete partial b h = cc
skip_planned_complete failed b h = cc
skip_planned_complete skipped b h = cc
skip_planned_complete unreviewed b h = cc
skip_planned_complete unreviewable b h = cc

skip_rest-IsReviewed :
    (bs : List Batch) (id : Bytes) → IsReviewed bs id → IsReviewed (skip_rest bs) id
unfolding skip_rest
skip_rest-IsReviewed [] id h = h
skip_rest-IsReviewed (b ∷ bs) id (inr h) = inr (skip_rest-IsReviewed bs id h)
skip_rest-IsReviewed (b ∷ bs) id (inl h) = inl (rw (skip_planned_complete b.status b h.0) h)

All-skip_rest :
    (bs : List Batch) (ids : List Bytes)
    → All (IsReviewed bs) ids
    → All (IsReviewed (skip_rest bs)) ids
All-skip_rest bs [] h = tt
All-skip_rest bs (id ∷ ids) h = (skip_rest-IsReviewed bs id h.0, All-skip_rest bs ids h.1)

length-update_files :
    (done : List Bytes) (fs : List FileCoverage) → length (update_files done fs) ≡ length fs
unfolding update_files
length-update_files done [] = refl
length-update_files done (f ∷ fs) = omega (arith, length-update_files done fs)

count_files-le : (fs : List FileCoverage) → count_files fs ≤ length fs
unfolding count_files
count_files-le [] = omega arith
count_files-le (f ∷ fs) = elim (Bool-cases (is_complete f.status)) [
  | inl e ↦ rw e (omega (arith, count_files-le fs))
  | inr e ↦ rw e (omega (arith, count_files-le fs))
]

is_complete_sound : (s : Status) → is_complete s ≡ true → s ≡ complete
is_complete_sound complete h = refl
is_complete_sound planned h = cc
is_complete_sound partial h = cc
is_complete_sound failed h = cc
is_complete_sound skipped h = cc
is_complete_sound unreviewed h = cc
is_complete_sound unreviewable h = cc

-- The file is complete, each fragment of it in a completed batch.
abbrev pub IsDone : List Batch → FileCoverage → Type 0
IsDone bs f = (f.status ≡ complete) × All (IsReviewed bs) f.fragments

count_files-All :
    (bs : List Batch) (fs : List FileCoverage)
    → count_files fs ≡ length fs
    → All (IsCovered bs) fs
    → All (IsDone (skip_rest bs)) fs
unfolding count_files
count_files-All bs [] e h = tt
count_files-All bs (f ∷ fs) e h = elim (Bool-cases (is_complete f.status)) [
  | inl k ↦
      let s = is_complete_sound f.status k in
      (
        (s, All-skip_rest bs f.fragments (h.0.0 s).2),
        count_files-All bs fs (omega (arith, (rw k at e))) h.1,
      )
  | inr k ↦ absurd (omega (arith, (rw k at e), count_files-le fs))
]

final_status-complete :
    (canceled all any : Bool) → final_status canceled all any ≡ complete → all ≡ true
final_status-complete canceled true any h = refl
final_status-complete true false true h = cc
final_status-complete true false false h = cc
final_status-complete false false true h = cc
final_status-complete false false false h = cc

update_coverage-IsDone :
    (r : Report)
    → r.files_total ≡ length r.files
    → all_complete (update_coverage r) ≡ true
    → All (IsDone (skip_rest r.batches)) (update_coverage r).files
unfolding update_coverage all_complete
update_coverage-IsDone r t h =
    let fs = update_files (reviewed r.batches []) r.files in
    let counted : count_files fs ≡ length fs = ground (
      arith,
      h,
      t,
      length-update_files (reviewed r.batches []) r.files,
      ==_iff (count_files fs) r.files_total,
    ) in
    count_files-All r.batches fs counted (update_coverage-IsCovered r)

-- A report that says `complete` has every file done.
unfoldable IsSound : Report → Type 0
IsSound r = r.status ≡ complete → All (IsDone r.batches) r.files

give_up-IsSound : (s : Status) (e : String) (r : Report) → s ≢ complete → IsSound (give_up s e r)
unfolding give_up IsSound
give_up-IsSound s e r n h = absurd (n h)

conclude-IsSound :
    (canceled : Bool) (r : Report)
    → r.files_total ≡ length r.files
    → IsSound (conclude canceled (update_coverage r))
unfolding conclude update_coverage IsSound
conclude-IsSound canceled r t h = update_coverage-IsDone r t (
    final_status-complete canceled (all_complete (update_coverage r))
      (ltb 0 (update_coverage r).batches_completed) h)

module _ (load : Bytes → Option Bytes) (request : Batch → Bytes) (parallelism max_batches : ℕ)
    (blank : Bool) (admission : Admission) (events : List Event) where
  execute-IsSound :
      (r : Report)
      → r.files_total ≡ length r.files
      → IsSound (execute load request parallelism max_batches blank admission events r)
  unfolding execute run_report
  execute-IsSound r t = elim (Bool-cases (length r.batches == 0)) [
    | inl e ↦ rw e (give_up-IsSound skipped _ r (λ h. cc))
    | inr e ↦ rw e (elim (Bool-cases (ltb max_batches (length r.batches))) [
      | inl k ↦ rw k (give_up-IsSound skipped _ r (λ h. cc))
      | inr k ↦ rw k (elim (Bool-cases blank) [
        | inl b ↦ rw b (give_up-IsSound failed _ r (λ h. cc))
        | inr b ↦
            let run = run_batches request parallelism events (new_run load admission r.batches) in
            rw b (conclude-IsSound run.canceled (run_report run r) t)
      ])
    ])
  ]

  -- If the report counts its files right and execute ends with status complete, in any
  -- interleaving of the coordinator and the workers, then each file of the report is complete and
  -- each fragment of each file is in a completed batch.
  pub execute-IsDone :
      (r : Report)
      → r.files_total ≡ length r.files
      → (execute load request parallelism max_batches blank admission events r).status ≡ complete
      → All
          (IsDone (execute load request parallelism max_batches blank admission events r).batches)
          (execute load request parallelism max_batches blank admission events r).files
  unfolding IsSound
  execute-IsDone r t h = execute-IsSound r t h
