-- ===== src/Loop/State.antt =====
-- The checkpoint row that the controller keeps, its transaction, and what the environment answers.
use software_factory_templat.Base.{ℕ, Bool, ◌&&◌, Option, List, Bytes, bytes_eq}
use software_factory_templat.Budget.Json.{Fields, Json}
use software_factory_templat.Budget.Numbers.{Integer}

-- config.go
pub record Fingerprint : Type 0 where
  pub head : Bytes
  pub source : Bytes
  pub safety : Bytes

abbrev pub fingerprint_eq : Fingerprint → Fingerprint → Bool
fingerprint_eq a b =
    bytes_eq a.head b.head && bytes_eq a.source b.source && bytes_eq a.safety b.safety

pub data RunStatus : Type 0 where
  active stopped completed : RunStatus

pub data RunOutcome : Type 0 where
  running interrupted handoff attempt_limit no_progress repeated_failure approved manual_passed
        manual_failed :
      RunOutcome

pub data Role : Type 0 where
  implementer reviewer : Role

pub data Phase : Type 0 where
  starting checking finished : Phase
  invoking : Role → Phase

-- `verdict`
pub data Verdict : Type 0 where
  approve repair : Verdict

-- The entries of `evidence`, without the fields that only repeat the request, the command or a time.
pub data Evidence : Type 0 where
  checked : (exit_code : Option Integer) (outcome : Bytes) (snapshot : Fingerprint) → Evidence
  invoked : (role : Role) (budget_run outcome : Bytes) → Evidence
  reviewed : (verdict : Verdict) (findings_count : ℕ) (snapshot : Fingerprint) → Evidence

-- `row`
pub record Row : Type 0 where
  pub status : RunStatus
  pub outcome : RunOutcome
  pub phase : Phase
  pub attempts : ℕ
  pub no_progress : ℕ
  pub process_pid : Option Integer
  pub uncertain : Bool
  pub policy : Bytes
  pub prompt : Bytes
  pub baseline : Fingerprint
  pub snapshot : Fingerprint
  pub evidence : List Evidence
  pub budget_runs : List Bytes
  pub stop_reason : Bytes
  pub next_action : Bytes

-- `tick` numbers the calls of the environment, and `failed` is that of the transaction.
pub record State : Type 0 where
  pub tick : ℕ
  pub row : Row
  pub failed : Bool

-- `transaction.Write` saves, refuses before it publishes, or fails to publish.
pub data Written : Type 0 where
  saved refused broken : Written

-- `ops.execute`: `spawned` is the process that it publishes before it waits.
pub record Execution : Type 0 where
  pub spawned : Option ℕ
  pub process_pid : ℕ
  pub exit_confirmed : Bool
  pub exit_code : Option Integer
  pub ownership_unconfirmed : Bool
  pub outcome : Bytes
  pub stdout : Bytes
  pub failed : Bool

-- `ops.invoke`: the record is that of the ledger, `ownership` the process of an OwnershipError.
pub record Answer : Type 0 where
  pub ledger_record : Option Fields
  pub failed : Bool
  pub ownership : Option ℕ
  pub exit_code : ℕ
  pub response : Bytes

-- What happens outside of the controller, by the number of the call: `none` is an error.
pub record World : Type 0 where
  -- `ctx.Err() != nil`, that of `parent`, and that of `observeCtx`
  pub ended : ℕ → Bool
  pub parent_ended : ℕ → Bool
  pub observing_ended : ℕ → Bool
  -- `m.elapsed() >= m.config.TimeoutSeconds`, and `allowance > 0`
  pub out_of_time : ℕ → Bool
  pub has_allowance : ℕ → Bool
  pub write : ℕ → Written
  -- The digest of the prompt's file
  pub prompt : ℕ → Option Bytes
  pub policy : ℕ → Option Bytes
  pub snapshot : ℕ → Option Fingerprint
  pub ledger : ℕ → Option Fields
  pub execute : ℕ → Execution
  pub invoke : ℕ → Role → Bytes → Answer
  -- `digest` of the source, the exit code and the output
  pub identify : ℕ → Bytes → Option Integer → Bytes → Option Bytes
  -- `jsonvalue.DecodeUnique` and `encodeHistory`
  pub decode : ℕ → Bytes → Option Json
  pub encode : ℕ → List Bytes → Option Bytes

-- The request and the configuration of a run.
pub record Settings : Type 0 where
  pub session : Bytes
  pub task : Bytes
  pub harness : Bytes
  pub is_bounded : Bool
  pub prompt : Bytes
  pub max_attempts : ℕ
  pub no_progress_limit : ℕ
