-- ===== src/Loop/Calm.antt =====
-- What the steps of a run leave alone, on the row: `Calm r0 r` says that `r` comes from `r0` without a
-- new attempt, an approval or a newly noted invocation of the implementer.
use software_factory_templat.Base.{ℕ, suc, ◌≤◌, Bool, true, false, Bytes, ◌≡◌, refl, ◌∙◌, arith}
use software_factory_templat.Loop.State.{
  completed, RunOutcome, running, interrupted, handoff, attempt_limit, no_progress,
  repeated_failure, approved, manual_passed, manual_failed, Row, State, Evidence, Written, saved,
  refused, broken, World,
}
use software_factory_templat.Loop.Turn.{End, finished, errored}
use software_factory_templat.Loop.Checkpoint.{
  write_result, is_approved, exit_status, finished_row, when_saved, save, finish_as, finish_run,
  append_evidence,
}
use software_factory_templat.Loop.Protocol.{
  implementer_entry, implementer_entries, implementer_entries-append, Allowed, Steps, stay, add,
  Steps-trans,
}
use software_factory_templat.Loop.Holds.{Holds, is_success, if-Holds, choose-Holds, bind-Holds}

abbrev pub Steady : Row → Row → Type 0
Steady r0 r =
    (r.baseline ≡ r0.baseline)
    × (r.policy ≡ r0.policy)
    × (r.prompt ≡ r0.prompt)
    × Steps r0.evidence r.evidence
    × (r.status ≡ completed → r0.status ≡ completed)

-- The same attempts, and at most so many invocations of the implementer noted.
abbrev pub Spent : ℕ → Row → Row → Type 0
Spent quota r0 r = (r.attempts ≡ r0.attempts) × (implementer_entries r.evidence ≤ quota)

pub Spent-trans :
    (quota : ℕ) (p q r : Row)
    → Spent quota p q
    → Spent (implementer_entries q.evidence) q r
    → Spent quota p r
Spent-trans quota p q r (n, m) (n1, m1) = (n1 ∙ n, omega (arith, m, m1))

abbrev pub Within : ℕ → Row → Row → Type 0
Within quota r0 r = Spent quota r0 r × Steady r0 r

abbrev pub Calm : Row → Row → Type 0
Calm r0 r = Within (implementer_entries r0.evidence) r0 r

-- Ended without success
abbrev pub Quiet : Row → End → State → Type 0
Quiet r0 e s = (is_success e ≡ false) × Calm r0 s.row

pub Steady-trans : (p q r : Row) → Steady p q → Steady q r → Steady p r
Steady-trans p q r (a, b, c, d, e) (a1, b1, c1, d1, e1) =
    (a1 ∙ a, b1 ∙ b, c1 ∙ c, Steps-trans d d1, λ h. e (e1 h))

pub Calm-refl : (r : Row) → Calm r r
Calm-refl r = ((refl, omega arith), (refl, refl, refl, stay, λ h. h))

pub Calm-append_evidence :
    (r0 r : Row) (e : Evidence)
    → Calm r0 r
    → Allowed r.evidence e
    → implementer_entry e ≡ 0
    → Calm r0 (append_evidence e r)
Calm-append_evidence r0 r e (n, (a, b, c, d, f)) h z =
    ((n.0, omega (arith, implementer_entries-append r.evidence e, z, n.1)), (a, b, c, add e d h, f))

-- Outcomes that exit with 2 are not approvals.
pub is_approved-exit_status : (o : RunOutcome) → exit_status o ≡ 2 → is_approved o ≡ false
is_approved-exit_status approved h = ground (arith, h)
is_approved-exit_status running h = refl
is_approved-exit_status handoff h = refl
is_approved-exit_status attempt_limit h = refl
is_approved-exit_status no_progress h = refl
is_approved-exit_status repeated_failure h = refl
is_approved-exit_status manual_passed h = refl
is_approved-exit_status manual_failed h = refl
is_approved-exit_status interrupted h = refl

pub Calm-finished_row :
    (r0 r : Row) (o : RunOutcome) (reason : Bytes)
    → is_approved o ≡ false
    → Calm r0 r
    → Calm r0 (finished_row o reason r)
unfolding finished_row
Calm-finished_row r0 r o reason h (n, (a, b, c, d, f)) = (n, (a, b, c, d, rw h (λ e. f cc)))

-- A save leaves the row alone.
pub write_result-Holds :
    (R : End → State → Type 0) (P : Row → Type 0) (a : Written) (s : State)
    → P s.row
    → Holds (λ b t. P t.row) R (write_result a s)
write_result-Holds R P saved s h = h
write_result-Holds R P refused s h = h
write_result-Holds R P broken s h = h

pub save-Holds :
    (R : End → State → Type 0) (w : World) (P : Row → Type 0) (s : State)
    → P s.row
    → Holds (λ b t. P t.row) R (save w s)
unfolding save
save-Holds R w P s h =
    choose-Holds (λ b t. P t.row) R s.failed _ _ (λ f. h)
      (λ f. write_result-Holds R P (w.write s.tick) (record s { tick = suc s.tick }) h)

-- What holds at the end of a run, saved or not.
abbrev pub Ending : (End → Row → Type 0) → RunOutcome → Bytes → Row → Type 0
Ending R o reason r =
    R errored (finished_row o reason r) × R (finished (exit_status o)) (finished_row o reason r)

pub finish_as-Holds :
    {A : Type 0} (Q : A → State → Type 0) (R : End → Row → Type 0) (w : World) (o : RunOutcome)
    (reason : Bytes) (s : State)
    → Ending R o reason s.row
    → Holds Q (λ e t. R e t.row) (finish_as w o reason s)
finish_as-Holds {A = A} Q R w o reason s h =
    bind-Holds (λ b t. Ending R o reason s.row × (t.row ≡ finished_row o reason s.row)) Q
      (λ e t. R e t.row) (save w (record s { row = finished_row o reason s.row })) (when_saved o)
      (save-Holds (λ e t. R e t.row) w
        (λ r. Ending R o reason s.row × (r ≡ finished_row o reason s.row))
        (record s { row = finished_row o reason s.row }) (h, refl))
      (λ b t k. saved_or_not b t k.0 k.1)
  where
    saved_or_not :
        (b : Bool) (t : State)
        → Ending R o reason s.row
        → t.row ≡ finished_row o reason s.row
        → Holds Q (λ e t. R e t.row) (when_saved o b t)
    saved_or_not true t k e = rw e k.1
    saved_or_not false t k e = rw e k.0

pub finish_run-Holds :
    {A : Type 0} (Q : A → State → Type 0) (R : End → Row → Type 0) (w : World) (o : RunOutcome)
    (reason : Bytes) (s : State)
    → R errored s.row
    → ((text : Bytes) → Ending R interrupted text s.row)
    → Ending R o reason s.row
    → Holds Q (λ e t. R e t.row) (finish_run w o reason s)
unfolding finish_run
finish_run-Holds Q R w o reason s h i j =
    choose-Holds Q (λ e t. R e t.row) s.failed _ _ (λ f. h)
      (λ f.
        if-Holds Q (λ e t. R e t.row) (w.parent_ended s.tick) _ _ (record s { tick = suc s.tick })
          (λ p. finish_as-Holds Q R w interrupted _ (record s { tick = suc s.tick }) (i _))
          (λ p. finish_as-Holds Q R w o reason (record s { tick = suc s.tick }) j))

pub Ending-Quiet :
    (r0 : Row) (o : RunOutcome) (reason : Bytes) (r : Row)
    → exit_status o ≡ 2
    → Calm r0 r
    → Ending (λ e r. (is_success e ≡ false) × Calm r0 r) o reason r
Ending-Quiet r0 o reason r h c =
    let k = Calm-finished_row r0 r o reason (is_approved-exit_status o h) c in
    ((refl, k), (rw h refl, k))

pub finish_run-Quiet :
    {A : Type 0} (Q : A → State → Type 0) (w : World) (r0 : Row) (o : RunOutcome) (reason : Bytes)
    (s : State)
    → exit_status o ≡ 2
    → Calm r0 s.row
    → Holds Q (Quiet r0) (finish_run w o reason s)
finish_run-Quiet Q w r0 o reason s h c =
    finish_run-Holds Q (λ e r. (is_success e ≡ false) × Calm r0 r) w o reason s (refl, c)
      (λ text. Ending-Quiet r0 interrupted text s.row refl c) (Ending-Quiet r0 o reason s.row h c)

pub Calm-trans : (p q r : Row) → Calm p q → Calm q r → Calm p r
Calm-trans p q r (n, s) (m, t) =
    (Spent-trans (implementer_entries p.evidence) p q r n m, Steady-trans p q r s t)
