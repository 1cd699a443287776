-- ===== src/Examples/Fragments.antt =====
-- A change of two files, split and packed.
use mathlib.Core.List.{Perm}
use software_factory_templat.Base.{
  ℕ, ◌≤◌, none, List, [], ◌∷◌, ◌++◌, Bytes, codes, length, ◌≡◌, refl, All, Result, ok, err, arith,
}
use software_factory_templat.ReviewBatch.Types.{Fragment, Hunk, FileDiff, file_diff, nil}
use software_factory_templat.ReviewBatch.Split.{range_line, split_hunk, split_file}
use software_factory_templat.ReviewBatch.Split.Covers.{Covers, split_hunk-Covers, split_hunk_total}
use software_factory_templat.ReviewBatch.Split.Bounds.{Within}
use software_factory_templat.ReviewBatch.Plan.{
  Packing, fragment_ids, group_size, pack_group, make_plan,
}
use software_factory_templat.ReviewBatch.Plan.Packed.{IsBatch, batch_fragments, pack_group-whole}
use software_factory_templat.ReviewBatch.Plan.Whole.{make_plan-Perm}
use software_factory_templat.ReviewBatch.Plan.Bounded.{split_file-Within, make_plan-IsBatch}

-- Stand-ins for SHA-256 in hexadecimal and for JSON.
abbrev digest : Bytes → Bytes
digest b = b

abbrev marshal : List Bytes → Bytes
marshal [] = []
marshal (x ∷ xs) = x ++ marshal xs

abbrev header : Bytes
header = codes "diff\n"

abbrev hunk_lines : List Bytes
hunk_lines = codes " one" ∷ codes "-two" ∷ codes "+2" ∷ codes " three" ∷ []

abbrev limit : ℕ
limit = 145

abbrev no_fragments : List Fragment
no_fragments = []

abbrev pieces : Result (List Fragment) → List Fragment
pieces (ok fs) = fs
pieces (err e) = []

abbrev split_lines : Result (List Fragment)
split_lines = split_hunk digest 4 (codes "a.go") header limit 10 20 hunk_lines []

lines_split : split_lines ≡ ok (pieces split_lines)
unfolding split_hunk
lines_split = refl

two_pieces : length (pieces split_lines) ≡ 2
unfolding split_hunk
two_pieces = refl

split_hunk-Covers_example :
    (fs : List Fragment) × (pieces split_lines ≡ no_fragments ++ fs)
    × Covers digest (codes "a.go") header limit 10 20 0 hunk_lines fs
split_hunk-Covers_example =
    split_hunk-Covers digest (codes "a.go") header limit (omega arith) 4 10 20 hunk_lines []
      (pieces split_lines) lines_split

split_hunk_total_example :
    (r : List Fragment) × (split_hunk digest 4 (codes "a.go") header limit 10 20 hunk_lines []
      ≡ ok r)
split_hunk_total_example =
    split_hunk_total digest (codes "a.go") header limit (omega arith) 4 10 20 hunk_lines []
      (omega arith) (omega arith, (omega arith, (omega arith, (omega arith, tt))))

abbrev hunk : Hunk
hunk = record {
  header = codes "@@ -10,3 +20,3 @@";
  old_start = 10;
  new_start = 20;
  old = 3;
  new = 3;
  lines = hunk_lines;
}

abbrev source : FileDiff
source = file_diff (codes "a.go") header (hunk ∷ []) none nil

abbrev test_source : FileDiff
test_source = file_diff (codes "a_test.go") header (hunk ∷ hunk ∷ []) none nil

source_split : split_file digest source limit ≡ ok (pieces (split_file digest source limit))
unfolding split_file
source_split = refl

split_file-Within_example : All (Within limit) (pieces (split_file digest source limit))
split_file-Within_example =
    split_file-Within digest limit source (pieces (split_file digest source limit))
      (((omega arith, omega arith), tt), tt) source_split

abbrev changed : List FileDiff
changed = source ∷ test_source ∷ []

make_plan-IsBatch_example :
    All
      (IsBatch limit)
      (make_plan digest marshal
        (codes "r")
        (codes "b")
        (codes "p")
        (codes "s")
        limit
        changed).batches
make_plan-IsBatch_example =
    make_plan-IsBatch digest limit marshal (codes "r") (codes "b") (codes "p") (codes "s") changed (
      (((omega arith, omega arith), tt), tt),
      ((((omega arith, omega arith), ((omega arith, omega arith), tt)), tt), tt),
    )

make_plan-Perm_example :
    Perm
      (batch_fragments
        (make_plan digest marshal
          (codes "r")
          (codes "b")
          (codes "p")
          (codes "s")
          limit
          changed).batches)
      (fragment_ids
        (make_plan digest marshal
          (codes "r")
          (codes "b")
          (codes "p")
          (codes "s")
          limit
          changed).fragments)
make_plan-Perm_example =
    make_plan-Perm digest marshal (codes "r") (codes "b") (codes "p") (codes "s") limit changed

two_batches :
    (make_plan digest marshal
      (codes "r")
      (codes "b")
      (codes "p")
      (codes "s")
      limit
      changed).batches_planned
    ≡ 2
unfolding make_plan range_line
two_batches = refl

abbrev packing : Packing
packing = record { batches = []; pending = []; pending_bytes = 0 }

abbrev group : List Fragment
group = pieces (split_file digest source limit)

group_fits : group_size group ≤ 1000
unfolding split_file range_line
group_fits = omega arith

pack_group-whole_example :
    (before : List Fragment) × ((pack_group digest 1000 group packing).pending ≡ before ++ group)
pack_group-whole_example = pack_group-whole digest 1000 group packing group_fits
