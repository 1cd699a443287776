-- ===== src/Loop/Runs.antt =====
-- The runs of the controller as a whole: they end, they keep what they were started against, and what
-- they report rests on their evidence.
use software_factory_templat.Base.{
  ℕ, suc, ◌+◌, ◌≤◌, ◌<◌, ◌-◌, max, true, false, [], Bytes, ◌≡◌, ◌≢◌, refl, subst, arith, Bool-cases,
  ◌⊎◌, inl, inr,
}
use software_factory_templat.Budget.Numbers.{Arithmetic}
use software_factory_templat.Loop.State.{
  completed, interrupted, handoff, manual_passed, manual_failed, Row, State, World, Settings,
}
use software_factory_templat.Loop.Turn.{End, finished, errored, Turn, go, ended, ◌>>=◌}
use software_factory_templat.Loop.Checkpoint.{finished_row}
use software_factory_templat.Loop.Check.{CheckResult, check_stage}
use software_factory_templat.Loop.Runes.{Unicode}
use software_factory_templat.Loop.Bounded.{manual, run}
use software_factory_templat.Loop.Protocol.{implementer_entries, Checked, Steps}
use software_factory_templat.Loop.Holds.{
  Holds, has_ended, is_success, if-Holds, bind-Holds, Holds-mono,
}
use software_factory_templat.Loop.Calm.{
  Calm, Quiet, Calm-refl, Calm-finished_row, Ending-Quiet, finish_run-Holds, finish_run-Quiet,
}
use software_factory_templat.Loop.Verified.{Verified, check_stage-Holds}
use software_factory_templat.Loop.Approval.{IsApproved}
use software_factory_templat.Loop.Rounds.{
  IsPaid, Final, Rounds, Rounds-has_ended, bounded-Final, finish_run-Final,
}

-- No step goes on.
abbrev pub Never : {A : Type 0} → A → State → Type 0
Never x s = false ≡ true

pub Never-has_ended :
    {A : Type 0} (R : End → State → Type 0) (t : Turn A) → Holds Never R t → has_ended t ≡ true
Never-has_ended R (go x s) h = h
Never-has_ended R (ended e s) h = refl

pub ended-Holds :
    {A : Type 0} (Q : A → State → Type 0) (R : End → State → Type 0) (t : Turn A) (e : End)
    (s : State)
    → Holds Q R t
    → t ≡ ended e s
    → R e s
ended-Holds Q R t e s h k = subst (Holds Q R) k h

-- What a manual run ends with.
abbrev pub ManualRow : Row → End → Row → Type 0
ManualRow r0 e r =
    Calm r0 r × (is_success e ≡ true → (r.outcome ≡ manual_passed) × Checked r.snapshot r.evidence)

abbrev pub ManualEnd : Row → End → State → Type 0
ManualEnd r0 e s = ManualRow r0 e s.row

Quiet-ManualRow :
    (r0 : Row) (e : End) (r : Row) → (is_success e ≡ false) × Calm r0 r → ManualRow r0 e r
Quiet-ManualRow r0 e r (q, k) = (k, λ h. cc)

manual_passed-ManualRow :
    (r0 : Row) (e : End) (r : Row) (reason : Bytes)
    → Calm r0 r
    → Checked r.snapshot r.evidence
    → ManualRow r0 e (finished_row manual_passed reason r)
unfolding finished_row
manual_passed-ManualRow r0 e r reason k checked =
    (Calm-finished_row r0 r manual_passed reason refl k, λ h. (refl, checked))

module _ (u : Unicode) (a : Arithmetic) (w : World) (c : Settings) where
  manual-ManualEnd :
      (r0 : Row) (k : CheckResult) (s : State)
      → Verified r0 k s
      → Holds Never (ManualEnd r0) (manual u a w c k s)
  manual-ManualEnd r0 k s (calm, checked) =
      if-Holds Never (ManualEnd r0) k.passed _ _ s
        (λ e.
          finish_run-Holds Never (ManualRow r0) w manual_passed _ s (calm, λ h. cc)
            (λ text.
              let q = Ending-Quiet r0 interrupted text s.row refl calm in
              let r : Row = finished_row interrupted text s.row in
              (Quiet-ManualRow r0 errored r q.0, Quiet-ManualRow r0 (finished 2) r q.1))
            (
              manual_passed-ManualRow r0 errored s.row _ calm (checked e),
              manual_passed-ManualRow r0 (finished 0) s.row _ calm (checked e),
            ))
        (λ e.
          Holds-mono Never (Quiet r0) Never (ManualEnd r0) _
            (finish_run-Quiet Never w r0 manual_failed _ s refl calm) (λ x t h. h)
            (λ d t h. Quiet-ManualRow r0 d t.row h))

  check_stage-ManualEnd :
      (s : State) → Holds Never (ManualEnd s.row) ((check_stage a w c >>= manual u a w c) s)
  check_stage-ManualEnd s =
      bind-Holds (Verified s.row) Never (ManualEnd s.row) _ (manual u a w c)
        (Holds-mono (Verified s.row) (Quiet s.row) (Verified s.row) (ManualEnd s.row) _
          (check_stage-Holds a w c s.row s (Calm-refl s.row)) (λ x t h. h)
          (λ d t h. Quiet-ManualRow s.row d t.row h))
        (manual-ManualEnd s.row)

  run_manual-ManualEnd :
      (fuel : ℕ) (s : State)
      → c.is_bounded ≡ false
      → Holds Never (ManualEnd s.row) (run u a w c fuel s)
  unfolding run
  run_manual-ManualEnd fuel s mode =
      let t : State = record s { tick = suc s.tick } in
      if-Holds Never (ManualEnd s.row) (w.ended s.tick) _ _ t
        (λ e.
          Holds-mono Never (Quiet s.row) Never (ManualEnd s.row) _
            (finish_run-Quiet Never w s.row handoff _ t refl (Calm-refl s.row)) (λ x v h. h)
            (λ d v h. Quiet-ManualRow s.row d v.row h))
        (λ e.
          if-Holds Never (ManualEnd s.row) c.is_bounded _ _ t
            (λ h. absurd (ground (arith, h, mode))) (λ h. check_stage-ManualEnd t))

  run_bounded-Final :
      (fuel : ℕ) (s : State)
      → c.is_bounded ≡ true
      → Holds (Rounds u a w c fuel s.row) (Final c s.row) (run u a w c fuel s)
  unfolding run
  run_bounded-Final fuel s mode =
      let t : State = record s { tick = suc s.tick } in
      if-Holds (Rounds u a w c fuel s.row) (Final c s.row) (w.ended s.tick) _ _ t
        (λ e.
          finish_run-Final u a w c (Rounds u a w c fuel s.row) s.row handoff _ t refl
            (Calm-refl s.row))
        (λ e.
          if-Holds (Rounds u a w c fuel s.row) (Final c s.row) c.is_bounded _ _ t
            (λ h. bounded-Final u a w c fuel (record { instructions = []; failures = [] }) t)
            (λ h. absurd (ground (arith, h, mode))))

  -- With fuel for more rounds than attempts are left, and at least one, a run ends, with a result
  -- or with an error, whatever its environment answers.
  pub run-has_ended :
      (fuel : ℕ) (s : State)
      → c.max_attempts - s.row.attempts < fuel
      → has_ended (run u a w c fuel s) ≡ true
  run-has_ended fuel s enough = elim (Bool-cases c.is_bounded) [
    | inl e ↦
        Rounds-has_ended u a w c fuel s.row (run u a w c fuel s) (omega (arith, enough))
          (omega (arith, enough)) (run_bounded-Final fuel s e)
    | inr e ↦ Never-has_ended (ManualEnd s.row) (run u a w c fuel s) (run_manual-ManualEnd fuel s e)
  ]

  -- In a bounded run that starts on a row that is not completed and has ended, exit code 0 means
  -- that the row is completed; and if the row is completed, its last evidence is an approval
  -- without findings of the snapshot on the row, after a check of that same snapshot that exited
  -- with 0.
  pub run-IsApproved :
      (fuel : ℕ) (s t : State) (e : End)
      → c.is_bounded ≡ true
      → s.row.status ≢ completed
      → run u a w c fuel s ≡ ended e t
      → (is_success e ≡ true → t.row.status ≡ completed)
        × (t.row.status ≡ completed → IsApproved t.row)
  run-IsApproved fuel s t e mode unfinished ends =
      let f =
        ended-Holds (Rounds u a w c fuel s.row) (Final c s.row) (run u a w c fuel s) e t
          (run_bounded-Final fuel s mode) ends in
      (f.2.4, λ h. not_earlier (f.2.5 h))
    where
      not_earlier : (s.row.status ≡ completed) ⊎ IsApproved t.row → IsApproved t.row
      not_earlier (inl h) = absurd (unfinished h)
      not_earlier (inr h) = h

  -- The evidence of a run that has ended notes no more invocations of the implementer than it did
  -- at the start and attempts were left up to the configured maximum, and in manual mode no more
  -- than at the start; the attempts on the row have grown by at least the invocations noted and
  -- stay within the maximum; and the baseline, the policy and the prompt are those that the run
  -- started with.
  pub run-attempts :
      (fuel : ℕ) (s t : State) (e : End)
      → run u a w c fuel s ≡ ended e t
      → (implementer_entries t.row.evidence
          ≤ implementer_entries s.row.evidence + (c.max_attempts - s.row.attempts))
        × (c.is_bounded ≡ false
            → implementer_entries t.row.evidence ≤ implementer_entries s.row.evidence)
        × IsPaid s.row t.row
        × (t.row.attempts ≤ max s.row.attempts c.max_attempts)
        × (t.row.baseline ≡ s.row.baseline)
        × (t.row.policy ≡ s.row.policy)
        × (t.row.prompt ≡ s.row.prompt)
  run-attempts fuel s t e ends = elim (Bool-cases c.is_bounded) [
    | inl mode ↦
        let f =
          ended-Holds (Rounds u a w c fuel s.row) (Final c s.row) (run u a w c fuel s) e t
            (run_bounded-Final fuel s mode) ends in
        (omega (arith, f.0, f.1), λ h. cc, f.1, f.0, f.2.0, f.2.1, f.2.2)
    | inr mode ↦
        let f =
          ended-Holds Never (ManualEnd s.row) (run u a w c fuel s) e t
            (run_manual-ManualEnd fuel s mode) ends in
        (
          omega (arith, f.0.0.1),
          λ h. f.0.0.1,
          omega (arith, f.0.0.0, f.0.0.1),
          omega (arith, f.0.0.0),
          f.0.1.0,
          f.0.1.1,
          f.0.1.2,
        )
  ]

  -- A manual run that starts on a row that is not completed and has ended has not completed it,
  -- and exit code 0 means that its outcome is manual_passed and its evidence has a check of the
  -- snapshot on the row that exited with 0.
  pub run_manual-Checked :
      (fuel : ℕ) (s t : State) (e : End)
      → c.is_bounded ≡ false
      → s.row.status ≢ completed
      → run u a w c fuel s ≡ ended e t
      → (t.row.status ≢ completed)
        × (is_success e ≡ true
            → (t.row.outcome ≡ manual_passed) × Checked t.row.snapshot t.row.evidence)
  run_manual-Checked fuel s t e mode unfinished ends =
      let f =
        ended-Holds Never (ManualEnd s.row) (run u a w c fuel s) e t
          (run_manual-ManualEnd fuel s mode) ends in
      (λ h. unfinished (f.0.1.4 h), f.1)

  -- A run that has ended has changed the evidence only by steps of the protocol: it adds entries
  -- at the end, a reviewer is noted as invoked only after a check that exited with 0, and a review
  -- is added only after such a check of its own snapshot, with no findings exactly where it
  -- approves.
  pub run-Steps :
      (fuel : ℕ) (s t : State) (e : End)
      → run u a w c fuel s ≡ ended e t
      → Steps s.row.evidence t.row.evidence
  run-Steps fuel s t e ends = elim (Bool-cases c.is_bounded) [
    | inl mode ↦
        let f =
          ended-Holds (Rounds u a w c fuel s.row) (Final c s.row) (run u a w c fuel s) e t
            (run_bounded-Final fuel s mode) ends in
        f.2.3
    | inr mode ↦
        let f =
          ended-Holds Never (ManualEnd s.row) (run u a w c fuel s) e t
            (run_manual-ManualEnd fuel s mode) ends in
        f.0.1.3
  ]
