-- ===== src/ReviewBatch/Coverage.antt =====
-- plan.go, updateCoverage: which fragments and files the completed batches have covered.
pub mod Complete
use software_factory_templat.Base.{
  Option, String, ℕ, suc, ◌+◌, Bool, true, false, ◌&&◌, List, [], ◌∷◌, ◌++◌, ◌==◌, ltb,
  if◌then◌else◌, Bytes, length,
}
use software_factory_templat.ReviewBatch.Types.{
  Status, Batch, FileCoverage, planned, complete, partial, unreviewed, unreviewable, failed,
  skipped,
}
use software_factory_templat.ReviewBatch.Plan.{contains}

-- `status == "complete"`
abbrev pub is_complete : Status → Bool
is_complete complete = true
is_complete planned = false
is_complete partial = false
is_complete unreviewed = false
is_complete unreviewable = false
is_complete failed = false
is_complete skipped = false

-- `report` without its identity: the digests, the budget and the usage.
pub record Report : Type 0 where
  pub status : Status
  pub error : Option String
  pub files_total : ℕ
  pub batches_planned : ℕ
  pub batches : List Batch
  pub files : List FileCoverage
  pub batches_completed : ℕ
  pub batches_cached : ℕ
  pub fragments_reviewed : ℕ
  pub files_reviewed : ℕ

-- `done[id] = true`: the keys of the map, each once.
unfoldable pub mark : List Bytes → List Bytes → List Bytes
unfolding contains
mark [] done = done
mark (id ∷ ids) done = mark ids (if contains id done then done else done ++ id ∷ [])

unfoldable pub reviewed : List Batch → List Bytes → List Bytes
unfolding mark
reviewed [] done = done
reviewed (b ∷ bs) done = reviewed bs (if is_complete b.status then mark b.fragments done else done)

abbrev pub one_if : Bool → ℕ
one_if true = 1
one_if false = 0

unfoldable pub count_completed : List Batch → ℕ
count_completed [] = 0
count_completed (b ∷ bs) = one_if (is_complete b.status) + count_completed bs

unfoldable pub count_cached : List Batch → ℕ
count_cached [] = 0
count_cached (b ∷ bs) = one_if (is_complete b.status && b.cached) + count_cached bs

-- `complete`
unfoldable pub count_done : List Bytes → List Bytes → ℕ
unfolding contains
count_done done [] = 0
count_done done (id ∷ ids) = one_if (contains id done) + count_done done ids

-- The `switch`.
abbrev pub coverage_status : ℕ → ℕ → Status
coverage_status n all =
    if n == all && ltb 0 n then complete else if ltb 0 n then partial else unreviewed

abbrev pub next_status : Status → Status → Status
next_status unreviewable s = unreviewable
next_status planned s = s
next_status complete s = s
next_status partial s = s
next_status unreviewed s = s
next_status failed s = s
next_status skipped s = s

unfoldable pub update_file : List Bytes → FileCoverage → FileCoverage
unfolding count_done
update_file done f = record f {
  status =
      next_status f.status (coverage_status (count_done done f.fragments) (length f.fragments));
}

unfoldable pub update_files : List Bytes → List FileCoverage → List FileCoverage
unfolding update_file
update_files done [] = []
update_files done (f ∷ fs) = update_file done f ∷ update_files done fs

-- `FilesReviewed++` stands in the branch that sets "complete".
unfoldable pub count_files : List FileCoverage → ℕ
count_files [] = 0
count_files (f ∷ fs) = one_if (is_complete f.status) + count_files fs

unfoldable pub update_coverage : Report → Report
unfolding reviewed update_files count_files count_completed count_cached
update_coverage r =
    let done = reviewed r.batches [] in
    let files = update_files done r.files in
    record r {
      files = files;
      batches_completed = count_completed r.batches;
      batches_cached = count_cached r.batches;
      fragments_reviewed = length done;
      files_reviewed = count_files files;
    }
