-- ===== src/ReviewBatch/Types.antt =====
-- The data of diff.go and plan.go. A message that is the empty string where there is none (`uncovered`,
-- `Error`) is an `Option`.
use software_factory_templat.Base.{ℕ, Bool, Option, String, List, Bytes}

-- `ID`, `Path`, `Index` and the ranges of one reviewed piece of a diff.
pub record Fragment : Type 0 where
  pub id : Bytes
  pub path : Bytes
  pub index : ℕ
  pub old_start : ℕ
  pub old_lines : ℕ
  pub new_start : ℕ
  pub new_lines : ℕ
  pub patch : Bytes

pub record Hunk : Type 0 where
  pub header : Bytes
  pub old_start : ℕ
  pub new_start : ℕ
  pub old : ℕ
  pub new : ℕ
  pub lines : List Bytes

-- The parsed diff of one file; a type change has its two halves as parts.
mutual
  pub data FileDiff : Type 0 where
    file_diff : Bytes → Bytes → List Hunk → Option String → Parts → FileDiff

  pub data Parts : Type 0 where
    nil : Parts
    cons : FileDiff → Parts → Parts

abbrev pub filename : FileDiff → Bytes
filename (file_diff name header hunks uncovered parts) = name

pub data Status : Type 0 where
  planned complete partial unreviewed unreviewable failed skipped : Status

pub record Batch : Type 0 where
  pub id : Bytes
  pub files : List Bytes
  pub fragments : List Bytes
  pub status : Status
  pub cached : Bool
  pub findings : Bytes
  pub error : Option String
  pub patch : Bytes

pub record FileCoverage : Type 0 where
  pub path : Bytes
  pub status : Status
  pub fragments : List Bytes
  pub error : Option String
