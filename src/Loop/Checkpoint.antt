-- ===== src/Loop/Checkpoint.antt =====
-- manual_run.go: save, fresh and finish.
use software_factory_templat.Base.{
  ℕ, Bool, true, false, ◌&&◌, Option, none, some, [], ◌∷◌, ◌++◌, Bytes, codes, bytes_eq,
  if◌then◌else◌,
}
use software_factory_templat.Budget.Numbers.{Integer}
use software_factory_templat.Loop.State.{
  Fingerprint, fingerprint_eq, stopped, completed, RunOutcome, running, interrupted, handoff,
  attempt_limit, no_progress, repeated_failure, approved, manual_passed, manual_failed, finished,
  Row, Evidence, Written, saved, refused, broken, World,
}
use software_factory_templat.Loop.Turn.{
  M, go, End, errored, ◌>>=◌, ◌>>◌, pure, modify, gets, ask, stop,
}

-- What `transaction.Write` answers: no error, and whether publication has failed.
abbrev pub write_result : Written → M Bool
write_result saved s = go true s
write_result refused s = go false s
write_result broken s = go false (record s { failed = true })

abbrev pub is_approved : RunOutcome → Bool
is_approved approved = true
is_approved running = false
is_approved interrupted = false
is_approved handoff = false
is_approved attempt_limit = false
is_approved no_progress = false
is_approved repeated_failure = false
is_approved manual_passed = false
is_approved manual_failed = false

-- `status` of finish, the exit code.
abbrev pub exit_status : RunOutcome → ℕ
exit_status approved = 0
exit_status manual_passed = 0
exit_status running = 2
exit_status interrupted = 2
exit_status handoff = 2
exit_status attempt_limit = 2
exit_status no_progress = 2
exit_status repeated_failure = 2
exit_status manual_failed = 2

abbrev pub manual_next_action : Bytes
manual_next_action =
    codes
      "Inspect changes and evidence; hand off to a human. Use a new task only after resolving the stop reason."

-- The row of a finished run.
unfoldable pub finished_row : RunOutcome → Bytes → Row → Row
finished_row outcome reason r = record r {
  status = if is_approved outcome then completed else stopped;
  outcome = outcome;
  phase = finished;
  stop_reason = reason;
  next_action =
      if is_approved outcome
      then codes "Review the changes and independent CI results."
      else manual_next_action;
}

abbrev pub when_saved : {A : Type 0} → RunOutcome → Bool → M A
when_saved outcome true = stop (End.finished (exit_status outcome))
when_saved outcome false = stop errored

abbrev pub is_match_of : Fingerprint → Option Fingerprint → Fingerprint → Bool
is_match_of baseline none current =
    bytes_eq current.head baseline.head && bytes_eq current.safety baseline.safety
is_match_of baseline (some previous) current =
    bytes_eq current.head baseline.head
    && bytes_eq current.safety baseline.safety
    && fingerprint_eq current previous

abbrev pub same_text : Option Bytes → Bytes → Bool
same_text none expected = false
same_text (some text) expected = bytes_eq text expected

abbrev pub note_snapshot : Fingerprint → M (Option Fingerprint)
note_snapshot current = do modify (λ r. record r { snapshot = current }); pure (some current)

-- The end of fresh: the snapshot against the baseline and the previous one.
unfoldable pub accept_snapshot : Option Fingerprint → Option Fingerprint → M (Option Fingerprint)
accept_snapshot previous none s = go none s
accept_snapshot previous (some current) s =
    if is_match_of s.row.baseline previous current then note_snapshot current s else go none s

module _ (w : World) where
  -- A transaction that has failed refuses every later save.
  unfoldable pub save : M Bool
  save s = if s.failed then go false s else (ask w.write >>= write_result) s

  abbrev pub finish_as : {A : Type 0} → RunOutcome → Bytes → M A
  finish_as outcome reason = do
    modify (finished_row outcome reason)
    written ← save
    when_saved outcome written

  -- The end of a run: an interruption of the parent goes before the given outcome.
  unfoldable pub finish_run : {A : Type 0} → RunOutcome → Bytes → M A
  unfolding finished_row save
  finish_run outcome reason s =
      if s.failed
      then (stop errored) s
      else (ask w.parent_ended >>= λ interrupts.
            if interrupts
            then finish_as interrupted
                (codes "Controller interrupted; inspect owned processes before recovery")
            else finish_as outcome reason)
          s

  -- After the prompt: the policy and the snapshot; `none` is an error.
  unfoldable pub fresh_source : Option Fingerprint → M (Option Fingerprint)
  unfolding accept_snapshot
  fresh_source previous = do
    policy ← ask w.policy
    recorded ← gets (λ s. s.row.policy)
    if same_text policy recorded then (ask w.snapshot >>= accept_snapshot previous) else pure none

  unfoldable pub fresh : (bounded : Bool) → Option Fingerprint → M (Option Fingerprint)
  unfolding fresh_source
  fresh false previous = fresh_source previous
  fresh true previous = do
    prompt ← ask w.prompt
    recorded ← gets (λ s. s.row.prompt)
    if same_text prompt recorded then fresh_source previous else pure none

-- `m.row["uncertain"] = true`
abbrev pub mark_uncertain : M (Unit {0})
mark_uncertain = modify (λ r. record r { uncertain = true })

abbrev pub append_evidence : Evidence → Row → Row
append_evidence e r = record r { evidence = r.evidence ++ (e ∷ []) }

-- A process number of a Go `int` above zero.
abbrev pub positive : ℕ → Integer
positive n = record { negative = false; magnitude = n }
