-- ===== src/Loop/Resume.antt =====
-- resume.go: AssessResume, whether a stopped run may go on. `Timeout` stands for the comparisons of
-- math/big and float64 with the requested time.
pub mod Eligible
use software_factory_templat.Base.{
  Bool, true, false, not, ◌&&◌, ◌||◌, Option, none, some, List, [], ◌∷◌, Bytes, codes, bytes_eq,
  if◌then◌else◌, Result, ok, err, ◌>>=◌, ◌>>◌, refuse,
}
use software_factory_templat.Budget.Json.{
  Json, null, boolean, number, text, array, object, Fields, get, text_of, text_eq,
}
use software_factory_templat.Budget.Numbers.{Arithmetic, Integer}
use software_factory_templat.Budget.Domain.{valid_id, one_of, harness}
use software_factory_templat.Budget.History.{has_active, any_row, rows}
use software_factory_templat.Loop.State.{Fingerprint, fingerprint_eq}
use software_factory_templat.Loop.Check.{is_idle}
use software_factory_templat.Loop.History.{
  integer, fingerprint, is_open, validate_checkpoints, lookup,
}

pub record Timeout : Type 0 where
  -- Above zero, finite and a number
  pub is_valid : Bool
  -- The exact elapsed seconds are not below it.
  pub is_reached : Integer → Bool
  -- `elapsed.Float64()` is not below it.
  pub is_reached_by : Bytes → Bool

pub record ResumeRequest : Type 0 where
  pub session : Bytes
  pub task : Bytes
  pub harness : Bytes
  pub mode : Bytes
  pub snapshot : Fingerprint
  pub policy : Bytes
  pub prompt : Bytes
  pub timeout : Timeout

unfoldable pub valid_resume_request : ResumeRequest → Bool
unfolding valid_id harness
valid_resume_request r =
    valid_id r.session
    && valid_id r.task
    && harness r.harness
    && one_of (codes "manual" ∷ codes "bounded" ∷ []) r.mode
    && r.timeout.is_valid

-- `previous == r.Snapshot`
abbrev pub same_snapshot : Option Fingerprint → Fingerprint → Bool
same_snapshot none f = false
same_snapshot (some previous) f = fingerprint_eq previous f

-- What the request must have in common with the row.
unfoldable pub is_resumable : ResumeRequest → Fields → Bool
unfolding fingerprint
is_resumable r row =
    text_eq (get row (codes "harness")) r.harness
    && text_eq (get row (codes "mode")) r.mode
    && bytes_eq r.mode (codes "manual")
    && same_snapshot (fingerprint (get row (codes "snapshot"))) r.snapshot
    && text_eq (get row (codes "policy")) r.policy
    && text_eq (get row (codes "prompt")) r.prompt
    && (text_eq (get row (codes "outcome")) (codes "manual_passed")
        || text_eq (get row (codes "outcome")) (codes "manual_failed"))

abbrev pub number_text : Json → Bytes
number_text (number n) = n
number_text null = []
number_text (boolean b) = []
number_text (text s) = []
number_text (array xs) = []
number_text (object m) = []

abbrev pub is_reached_exactly : Timeout → Bytes → Option Integer → Bool
is_reached_exactly t n none = t.is_reached_by n
is_reached_exactly t n (some i) = t.is_reached i

module _ (a : Arithmetic) where
  unfoldable pub is_spent : Timeout → Json → Bool
  unfolding integer
  is_spent t elapsed = is_reached_exactly t (number_text elapsed) (integer a elapsed)

  -- AssessResume: the row that may go on.
  unfoldable pub assess_resume : Fields → Fields → ResumeRequest → Result Fields
  unfolding valid_resume_request validate_checkpoints has_active lookup is_resumable is_spent
  assess_resume h b r = do
    refuse (not (valid_resume_request r)) "invalid loop checkpoint"
    validate_checkpoints a h
    refuse (not (is_idle (has_active a b))) "invalid loop checkpoint"
    refuse (any_row is_open (rows h)) "invalid loop checkpoint"
    row ← lookup a h r.session r.task
    refuse (not (is_resumable r row)) "invalid loop checkpoint"
    refuse (is_spent r.timeout (get row (codes "elapsed_seconds"))) "invalid loop checkpoint"
    ok row
