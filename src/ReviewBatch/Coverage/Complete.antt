-- ===== src/ReviewBatch/Coverage/Complete.antt =====
-- A file counts as reviewed exactly when a completed batch holds each of its fragments.
use software_factory_templat.Base.{
  ℕ, ◌≤◌, ◌<◌, true, List, [], ◌∷◌, ◌++◌, Bytes, bytes_eq, bytes_eq_iff, length, All, ◌≡◌, refl,
  ◌↔◌, ◌≢◌, ◌⊎◌, inl, inr, arith, Bool-cases,
}
use software_factory_templat.ReviewBatch.Types.{
  Status, Batch, FileCoverage, planned, complete, partial, unreviewed, unreviewable, failed,
  skipped,
}
use software_factory_templat.ReviewBatch.Plan.{contains}
use software_factory_templat.ReviewBatch.Coverage.{
  is_complete, Report, mark, reviewed, count_done, coverage_status, next_status, update_file,
  update_files, update_coverage,
}

-- A completed batch of the report holds the fragment.
abbrev pub IsReviewed : List Batch → Bytes → Type 0
IsReviewed [] id = ⊥
IsReviewed (b ∷ bs) id =
    ((is_complete b.status ≡ true) × (contains id b.fragments ≡ true)) ⊎ IsReviewed bs id

contains-append :
    (x y : Bytes) (ys : List Bytes)
    → contains x (ys ++ y ∷ []) ≡ true ↔ (contains x ys ≡ true ⊎ y ≡ x)
unfolding contains
contains-append x y [] = ground (arith, bytes_eq_iff y x)
contains-append x y (z ∷ ys) = ground (arith, bytes_eq_iff z x, contains-append x y ys)

contains-mark :
    (x : Bytes) (ids done : List Bytes)
    → contains x (mark ids done) ≡ true ↔ (contains x ids ≡ true ⊎ contains x done ≡ true)
unfolding mark contains
contains-mark x [] done = ground arith
contains-mark x (id ∷ ids) done = elim (Bool-cases (contains id done)) [
  | inl e ↦ rw e (elim (Bool-cases (bytes_eq id x)) [
    | inl k ↦
        let held : contains x done ≡ true = rw (← (bytes_eq_iff id x).0 k) e in
        ground (arith, k, held, contains-mark x ids done)
    | inr k ↦ ground (arith, k, contains-mark x ids done)
  ])
  | inr e ↦ rw e (
      ground (
        arith,
        contains-mark x ids (done ++ id ∷ []),
        contains-append x id done,
        bytes_eq_iff id x,
      ))
]

contains-reviewed :
    (x : Bytes) (bs : List Batch) (done : List Bytes)
    → contains x (reviewed bs done) ≡ true ↔ (IsReviewed bs x ⊎ contains x done ≡ true)
unfolding reviewed
contains-reviewed x [] done = ground arith
contains-reviewed x (b ∷ bs) done = elim (Bool-cases (is_complete b.status)) [
  | inl e ↦ rw e (
      ground (
        arith,
        e,
        contains-reviewed x bs (mark b.fragments done),
        contains-mark x b.fragments done,
      ))
  | inr e ↦ rw e (ground (arith, e, contains-reviewed x bs done))
]

count_done-le : (done ids : List Bytes) → count_done done ids ≤ length ids
unfolding count_done
count_done-le done [] = omega arith
count_done-le done (id ∷ ids) = elim (Bool-cases (contains id done)) [
  | inl e ↦ rw e (omega (arith, count_done-le done ids))
  | inr e ↦ rw e (omega (arith, count_done-le done ids))
]

count_done-All :
    (bs : List Batch) (ids : List Bytes)
    → count_done (reviewed bs []) ids ≡ length ids ↔ All (IsReviewed bs) ids
unfolding count_done
count_done-All bs [] = ground arith
count_done-All bs (id ∷ ids) = elim (Bool-cases (contains id (reviewed bs []))) [
  | inl e ↦ rw e (ground (arith, e, contains-reviewed id bs [], count_done-All bs ids))
  | inr e ↦ rw e (
      ground (
        arith,
        e,
        contains-reviewed id bs [],
        count_done-All bs ids,
        count_done-le (reviewed bs []) ids,
      ))
]

coverage_status-complete :
    (n all : ℕ) → (coverage_status n all ≡ complete) ↔ ((n ≡ all) × (0 < all))
coverage_status-complete n all = ground arith

coverage_status-reviewable : (n all : ℕ) → coverage_status n all ≢ unreviewable
coverage_status-reviewable n all = ground arith

next_status-cases : (s t : Status) → (next_status s t ≡ unreviewable) ⊎ (next_status s t ≡ t)
next_status-cases unreviewable t = inl refl
next_status-cases planned t = inr refl
next_status-cases complete t = inr refl
next_status-cases partial t = inr refl
next_status-cases unreviewed t = inr refl
next_status-cases failed t = inr refl
next_status-cases skipped t = inr refl

-- The file is complete exactly when it is reviewable, is not empty, and each fragment is reviewed.
abbrev pub IsCovered : List Batch → FileCoverage → Type 0
IsCovered bs f =
    (f.status ≡ complete)
    ↔ ((f.status ≢ unreviewable) × (0 < length f.fragments) × All (IsReviewed bs) f.fragments)

update_file-IsCovered :
    (bs : List Batch) (f : FileCoverage) → IsCovered bs (update_file (reviewed bs []) f)
unfolding update_file
update_file-IsCovered bs f =
    let n = count_done (reviewed bs []) f.fragments in
    let all = length f.fragments in
    elim (next_status-cases f.status (coverage_status n all)) [
      | inl e ↦ rw e (ground arith)
      | inr e ↦ rw e (
          ground (
            arith,
            coverage_status-complete n all,
            coverage_status-reviewable n all,
            count_done-All bs f.fragments,
          ))
    ]

update_files-IsCovered :
    (bs : List Batch) (fs : List FileCoverage)
    → All (IsCovered bs) (update_files (reviewed bs []) fs)
unfolding update_files
update_files-IsCovered bs [] = tt
update_files-IsCovered bs (f ∷ fs) = (update_file-IsCovered bs f, update_files-IsCovered bs fs)

-- After the update a file is complete exactly when it is not unreviewable, has a fragment, and
-- each of its fragments is in a completed batch of the report.
pub update_coverage-IsCovered : (r : Report) → All (IsCovered r.batches) (update_coverage r).files
unfolding update_coverage
update_coverage-IsCovered r = update_files-IsCovered r.batches r.files
