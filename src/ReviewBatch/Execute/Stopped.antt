-- ===== src/ReviewBatch/Execute/Stopped.antt =====
-- After `admission.stop()`: no attempt is admitted, and no batch passes the coordinator's check.
use software_factory_templat.Base.{
  ℕ, Bool, true, false, not, ◌&&◌, ◌||◌, List, [], ◌∷◌, drop, ltb, if◌then◌else◌, Bytes, ◌≡◌, refl,
  ap, ◌∙◌, ◌⊎◌, inl, inr, arith, Bool-cases, Option-cases,
}
use software_factory_templat.ReviewBatch.Types.{Batch}
use software_factory_templat.ReviewBatch.Admission.{Admission, reserve-cases, stop}
use software_factory_templat.ReviewBatch.Execute.{
  Outcome, Run, nth, running, body_length, request_limit, idle, is_resting, is_polled, is_cleared,
  has_next, poll, check_open, start, start_next, dispatch, attempt, findings_limit, outcome, finish,
  finish_of, collect_from, collect, Event, checked, opened, dispatched, attempted, finished,
  collected, interrupted, step, run_batches,
}
use software_factory_templat.ReviewBatch.Execute.Attempts.{
  worker_attempts, outcome_attempts, total_attempts, attempts-denied, attempts-removed,
  attempts-append, outcome-attempts,
}

-- The pending batches of the later run `s` are those of `r`, and its coordinator has passed the check
-- only if that of `r` had; or the coordinator of `r` had passed the check, that of `s` has not, and
-- the next batch of `r`, if any, has been taken.
abbrev pub IsTaken : Run → Run → Type 0
IsTaken r s =
    ((s.pending ≡ r.pending) × (is_cleared s.coordinator ≡ true → is_cleared r.coordinator ≡ true))
    ⊎ ((is_cleared r.coordinator ≡ true)
        × (is_cleared s.coordinator ≡ false)
        × (s.pending ≡ drop 1 r.pending))

-- The later run `s` is stopped, with the attempts of `r`, and has taken at most one batch.
abbrev pub IsHalted : Run → Run → Type 0
IsHalted r s = (s.admission.stopped ≡ true) × (total_attempts s ≡ total_attempts r) × IsTaken r s

IsTaken-trans : (r s t : Run) → IsTaken r s → IsTaken s t → IsTaken r t
IsTaken-trans r s t (inl a) (inl b) = inl (b.0 ∙ a.0, λ h. a.1 (b.1 h))
IsTaken-trans r s t (inl a) (inr b) = inr (a.1 b.0, b.1, b.2 ∙ ap (λ ps. drop 1 ps) a.0)
IsTaken-trans r s t (inr a) (inl b) = elim (Bool-cases (is_cleared t.coordinator)) [
  | inl e ↦ absurd (ground (arith, a.1, b.1 e))
  | inr e ↦ inr (a.0, e, b.0 ∙ a.2)
]
IsTaken-trans r s t (inr a) (inr b) = absurd (ground (arith, a.1, b.0))

stop_if : (b : Bool) (a : Admission) → a.stopped ≡ true → (if b then stop a else a).stopped ≡ true
unfolding stop
stop_if true a h = refl
stop_if false a h = h

attempt-IsHalted :
    (k : ℕ) (expired : Bool) (input tokens : ℕ) (r : Run)
    → r.admission.stopped ≡ true
    → IsHalted r (attempt k expired input tokens r)
unfolding attempt
attempt-IsHalted k expired input tokens r h = elim (Option-cases (nth k r.workers)) [
  | inl e ↦ rw e (h, refl, inl (refl, λ c. c))
  | inr e ↦ rw (e.1) (elim (reserve-cases (r.canceled || expired) input tokens r.admission) [
    | inl c ↦ (c.3 h, rw (c.1) (omega (arith, attempts-denied c.0 k r.workers)), inl (refl, λ c. c))
    | inr c ↦ cc
  ])
]

finish-IsHalted :
    (k : ℕ) (failure expired : Bool) (size : ℕ) (findings : Bytes) (r : Run)
    → r.admission.stopped ≡ true
    → IsHalted r (finish k failure expired size findings r)
unfolding finish finish_of
finish-IsHalted k failure expired size findings r h = elim (Option-cases (nth k r.workers)) [
  | inl e ↦ rw e (h, refl, inl (refl, λ c. c))
  | inr e ↦ rw (e.1) (
    stop_if (failure || ltb findings_limit size) r.admission h,
    omega (
      arith,
      attempts-removed k r.workers (e.1),
      attempts-append r.done (outcome failure (r.canceled || expired) size findings (e.0)),
      outcome-attempts failure (r.canceled || expired) size findings (e.0),
    ),
    inl (refl, λ c. c),
  )
]

collect_from-IsHalted :
    (os : List Outcome) (r : Run)
    → r.done ≡ os
    → r.admission.stopped ≡ true
    → IsHalted r (collect_from os r)
unfolding outcome_attempts
collect_from-IsHalted [] r e h = (h, refl, inl (refl, λ c. c))
collect_from-IsHalted (o ∷ os) r e h = (
  h,
  omega (arith, ap (λ ds. outcome_attempts ds) e, attempts-append r.outcomes o),
  inl (refl, λ c. c),
)

poll-IsHalted :
    (parallelism : ℕ) (r : Run) → r.admission.stopped ≡ true → IsHalted r (poll parallelism r)
unfolding poll
poll-IsHalted parallelism r h =
    elim (Bool-cases (
      is_resting r.coordinator
      && ltb (running r) parallelism
      && has_next r.pending
      && not r.canceled)) [
        | inl e ↦ rw e (h, refl, inl (refl, λ c. absurd (ground (arith, c))))
        | inr e ↦ rw e (h, refl, inl (refl, λ c. c))
      ]

check_open-IsHalted : (r : Run) → r.admission.stopped ≡ true → IsHalted r (check_open r)
unfolding check_open
check_open-IsHalted r h = elim (Bool-cases (is_polled r.coordinator)) [
  | inl e ↦ rw (e, h) (refl, refl, inl (refl, λ c. absurd (ground (arith, c))))
  | inr e ↦ rw e (h, refl, inl (refl, λ c. c))
]

module _ (request : Batch → Bytes) where
  -- What the body of the coordinator's loop does to a stopped run.
  abbrev HasStarted : List ℕ → Run → Run → Type 0
  HasStarted pending r s =
      (s.admission.stopped ≡ true)
      × (total_attempts s ≡ total_attempts r)
      × (is_cleared s.coordinator ≡ is_cleared r.coordinator)
      × (s.pending ≡ drop 1 pending)

  start_next-HasStarted :
      (pending : List ℕ) (r : Run)
      → r.pending ≡ pending
      → r.admission.stopped ≡ true
      → HasStarted pending r (start_next request pending r)
  unfolding start stop worker_attempts
  start_next-HasStarted [] r e h = (h, refl, refl, e)
  start_next-HasStarted (i ∷ rest) r e h =
      elim (Bool-cases (ltb request_limit (body_length request (nth i r.batches)))) [
        | inl b ↦ rw b (refl, refl, refl, refl)
        | inr b ↦ rw b (h, omega arith, refl, refl)
      ]

  dispatch-IsHalted : (r : Run) → r.admission.stopped ≡ true → IsHalted r (dispatch request r)
  unfolding dispatch
  dispatch-IsHalted r h = elim (Bool-cases (is_cleared r.coordinator)) [
    | inl e ↦
        let started = start_next-HasStarted r.pending (record r { coordinator = idle }) refl h in
        rw e (started.0, started.1, inr (refl, started.2, started.3))
    | inr e ↦ rw e (h, refl, inl (refl, λ c. absurd (ground (arith, c, e))))
  ]

collect-IsHalted : (r : Run) → r.admission.stopped ≡ true → IsHalted r (collect r)
unfolding collect
collect-IsHalted r h = elim (Bool-cases (is_resting r.coordinator)) [
  | inl e ↦ rw e (collect_from-IsHalted r.done r refl h)
  | inr e ↦ rw e (h, refl, inl (refl, λ c. c))
]

module _ (request : Batch → Bytes) (parallelism : ℕ) where
  step-IsHalted :
      (e : Event) (r : Run) → r.admission.stopped ≡ true → IsHalted r (step request parallelism e r)
  unfolding step
  step-IsHalted checked r h = poll-IsHalted parallelism r h
  step-IsHalted opened r h = check_open-IsHalted r h
  step-IsHalted dispatched r h = dispatch-IsHalted request r h
  step-IsHalted (attempted k expired input tokens) r h = attempt-IsHalted k expired input tokens r h
  step-IsHalted (finished k failure expired size findings) r h =
      finish-IsHalted k failure expired size findings r h
  step-IsHalted collected r h = collect-IsHalted r h
  step-IsHalted interrupted r h = (h, refl, inl (refl, λ c. c))

  -- Once admission is stopped it stays stopped in every interleaving and the workers make no
  -- further attempt together; the batches left to start stay the same, save that a coordinator
  -- that had passed its check of admission before the stop takes the next one, once: a coordinator
  -- that had not passed it never starts another batch.
  pub run_batches-IsHalted :
      (es : List Event) (r : Run)
      → r.admission.stopped ≡ true
      → IsHalted r (run_batches request parallelism es r)
  unfolding run_batches
  run_batches-IsHalted [] r h = (h, refl, inl (refl, λ c. c))
  run_batches-IsHalted (e ∷ es) r h =
      let one = step-IsHalted e r h in
      let rest = run_batches-IsHalted es (step request parallelism e r) one.0 in
      (
        rest.0,
        rest.1 ∙ one.1,
        IsTaken-trans r (step request parallelism e r)
            (run_batches request parallelism es (step request parallelism e r)) one.2 rest.2,
      )
