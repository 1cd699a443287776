-- ===== src/Loop/Check.antt =====
-- manual_run.go: checkStage, the deterministic check of a run.
use software_factory_templat.Base.{
  ℕ, zero, suc, Bool, true, false, not, ◌&&◌, ◌||◌, ◌==◌, ltb, Option, none, some, ◌++◌, Bytes,
  codes, bytes_eq, if◌then◌else◌, Result, ok, err,
}
use software_factory_templat.Budget.Json.{Fields}
use software_factory_templat.Budget.Numbers.{Arithmetic, Integer}
use software_factory_templat.Budget.History.{has_active}
use software_factory_templat.Loop.State.{
  Fingerprint, interrupted, handoff, checking, checked, Row, Execution, World, Settings,
}
use software_factory_templat.Loop.Turn.{M, errored, ◌>>=◌, ◌>>◌, pure, modify, gets, ask, stop}
use software_factory_templat.Loop.Checkpoint.{
  save, finish_run, fresh, mark_uncertain, append_evidence, positive,
}

pub record CheckResult : Type 0 where
  pub passed : Bool
  pub raw : Bytes
  pub identity : Bytes

abbrev pub is_idle : Result Bool → Bool
is_idle (ok active) = not active
is_idle (err message) = false

abbrev pub has_value : {A : Type 0} → Option A → Bool
has_value none = false
has_value (some a) = true

abbrev pub is_zero : Option Integer → Bool
is_zero none = false
is_zero (some i) = i.magnitude == 0

unfoldable pub is_certain : Execution → Bool
is_certain e = e.exit_confirmed && has_value e.exit_code && not e.ownership_unconfirmed

-- Whose process the row names after an execution.
unfoldable pub owned_process : Execution → Option Integer → Option Integer
unfolding is_certain
owned_process e previous =
    if is_certain e
    then none
    else if ltb 0 e.process_pid
    then some (positive e.process_pid)
    else previous

unfoldable pub own_process : Execution → Row → Row
unfolding is_certain owned_process
own_process e r =
    let pid = owned_process e r.process_pid in
    record r {
      process_pid = pid;
      uncertain = e.ownership_unconfirmed || (not (is_certain e) && has_value pid);
    }

module _ (w : World) where
  abbrev pub out_of_time : {A : Type 0} → M A
  out_of_time = finish_run w handoff (codes "loop time limit reached")

  abbrev pub source_changed : {A : Type 0} → M A
  source_changed =
      finish_run w handoff
        (codes "Source or governing configuration changed; human handoff required")

  -- The callback of `execute`.
  abbrev pub spawn : Option ℕ → M Bool
  spawn none = pure true
  spawn (some zero) = pure false
  spawn (some (suc n)) = do modify (λ r. record r { process_pid = some (positive (suc n)) }); save w

module _ (a : Arithmetic) (w : World) (c : Settings) where
  abbrev pub with_identity : Execution → Option Bytes → M CheckResult
  with_identity e none = stop errored
  with_identity e (some i) =
      pure (record { passed = is_zero e.exit_code; raw = e.stdout; identity = i })

  abbrev pub conclude_check : Fingerprint → Execution → Option Fingerprint → M CheckResult
  conclude_check before e none = source_changed w
  conclude_check before e (some current) =
      if is_certain e
        && (bytes_eq e.outcome (codes "completed") || bytes_eq e.outcome (codes "failed"))
      then ask (λ n. w.identify n before.source e.exit_code e.stdout) >>= with_identity e
      else finish_run w handoff (codes "check " ++ e.outcome ++ codes "; handoff required")

  abbrev pub recheck : Fingerprint → Execution → Bool → M CheckResult
  recheck before e true = fresh w c.is_bounded (some before) >>= conclude_check before e
  recheck before e false = stop errored

  abbrev pub interrupt : M CheckResult
  interrupt = do
    interrupts ← ask w.parent_ended
    if interrupts
        then finish_run w interrupted
            (codes "Controller interrupted; inspect owned processes before recovery")
        else out_of_time w

  -- From the evidence on.
  unfoldable pub record_check : Fingerprint → Execution → M CheckResult
  record_check before e = do
    modify (append_evidence (checked e.exit_code e.outcome before))
    late ← ask w.ended
    if late then interrupt else save w >>= recheck before e

  unfoldable pub executed : Fingerprint → Execution → M CheckResult
  unfolding own_process record_check
  executed before e = do
    modify (own_process e)
    if e.failed || (e.process_pid == 0)
        then finish_run w handoff
            (codes "Cannot confirm deterministic check execution; inspect owned processes")
        else record_check before e

  abbrev pub run_check : Fingerprint → M CheckResult
  run_check before = do
    e ← ask w.execute
    _published ← spawn w e.spawned
    failed ← gets (λ s. s.failed)
    if failed then stop errored else executed before e

  abbrev pub after_save : Fingerprint → Bool → M CheckResult
  after_save before true = do
    late ← ask w.ended
    allowed ← ask w.has_allowance
    if late || not allowed then out_of_time w else run_check before
  after_save before false = do
    late ← ask w.ended
    failed ← gets (λ s. s.failed)
    if late && not failed then out_of_time w else stop errored

  abbrev pub begin_check : Option Fingerprint → M CheckResult
  begin_check none = source_changed w
  begin_check (some before) = do
    allowed ← ask w.has_allowance
    if allowed
        then modify (λ r. record r { phase = checking }) >> (save w >>= after_save before)
        else out_of_time w

  -- What the budget ledger says before the check.
  abbrev pub owned : Option Fields → M CheckResult
  owned none = do
    mark_uncertain
    finish_run w handoff (codes "Cannot establish budget ownership before check")
  owned (some history) = do
    late ← ask w.ended
    if not late && is_idle (has_active a history)
        then fresh w c.is_bounded none >>= begin_check
        else mark_uncertain
          >> finish_run w handoff (
              codes
                "active budget invocation blocks checks; inspect owned processes and recover first")

  unfoldable pub check_stage : M CheckResult
  unfolding executed
  check_stage = do
    ledger ← ask w.ledger
    late ← ask w.ended
    if late then out_of_time w else owned ledger
