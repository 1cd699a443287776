-- ===== src/ReviewBatch/Execute/Limits.antt =====
-- What holds of the coordinator and its workers in every interleaving.
use software_factory_templat.Base.{
  ℕ, ◌+◌, ◌≤◌, ◌<◌, Bool, true, false, not, ◌&&◌, ◌||◌, Option, List, [], ◌∷◌, ltb, if◌then◌else◌,
  Bytes, length, length-append, ◌≡◌, refl, ap, inl, inr, arith, Bool-cases, Option-cases,
}
use software_factory_templat.ReviewBatch.Types.{Batch}
use software_factory_templat.ReviewBatch.Admission.{
  Admission, Budget, IsWithin, reserve, reserve-cases, reserve-IsWithin, charge, stop,
}
use software_factory_templat.ReviewBatch.Execute.{
  Outcome, Run, new_run, nth, running, request_limit, body_length, Coordinator, idle, polled,
  cleared, is_resting, is_polled, is_cleared, has_next, poll, check_open, start, start_next,
  dispatch, attempt_result, attempt, findings_limit, outcome, finish, finish_of, collect_from,
  collect, Event, dispatched, checked, opened, attempted, finished, collected, interrupted, step,
  run_batches,
}
use software_factory_templat.ReviewBatch.Execute.Attempts.{
  worker_attempts, outcome_attempts, total_attempts, length-update_at, length-remove_at,
  attempts-denied, attempts-admitted, attempts-removed, attempts-append, outcome-attempts,
}

abbrev pub HasLimits : Budget → Budget → Type 0
HasLimits a b =
    (b.max_requests ≡ a.max_requests) × (b.max_tokens ≡ a.max_tokens) × (b.max_input ≡ a.max_input)

-- The allowances hold, the workers are few enough, each request charged since `first` is some worker's
-- attempt, and the limits are those of `first`.
pub record IsRun (parallelism : ℕ) (first : Budget) (r : Run) : Type 0 where
  pub within : IsWithin r.admission.budget
  pub few : running r ≤ parallelism
  pub room : is_resting r.coordinator ≡ false → running r < parallelism
  pub counted : r.admission.budget.requests_used ≡ first.requests_used + total_attempts r
  pub same : HasLimits first r.admission.budget

stopped-budget : (b : Bool) (a : Admission) → (if b then stop a else a).budget ≡ a.budget
unfolding stop
stopped-budget true a = refl
stopped-budget false a = refl

busy_polled : (c : Coordinator) → is_polled c ≡ true → is_resting c ≡ false
busy_polled idle h = absurd (ground (arith, h))
busy_polled polled h = refl
busy_polled cleared h = refl

busy_cleared : (c : Coordinator) → is_cleared c ≡ true → is_resting c ≡ false
busy_cleared idle h = absurd (ground (arith, h))
busy_cleared polled h = refl
busy_cleared cleared h = refl

module _ (request : Batch → Bytes) (parallelism : ℕ) (first : Budget) where
  start-IsRun :
      (i : ℕ) (rest : List ℕ) (r : Run)
      → running r < parallelism
      → is_resting r.coordinator ≡ true
      → IsRun parallelism first r
      → IsRun parallelism first (start request i rest r)
  unfolding start stop worker_attempts
  start-IsRun i rest r room rests h =
      elim (Bool-cases (ltb request_limit (body_length request (nth i r.batches)))) [
        | inl e ↦ rw e (record {
          within = h.within;
          few = h.few;
          room = h.room;
          counted = h.counted;
          same = h.same;
        })
        | inr e ↦ rw e (record {
          within = h.within;
          few = omega (arith, room);
          room = λ k. absurd (ground (arith, rests, k));
          counted = omega (arith, h.counted);
          same = h.same;
        })
      ]

  start_next-IsRun :
      (pending : List ℕ) (r : Run)
      → running r < parallelism
      → is_resting r.coordinator ≡ true
      → IsRun parallelism first r
      → IsRun parallelism first (start_next request pending r)
  start_next-IsRun [] r room rests h = h
  start_next-IsRun (i ∷ rest) r room rests h = start-IsRun i rest r room rests h

  -- The coordinator moves while there is room.
  move-IsRun :
      (c : Coordinator) (r : Run)
      → (is_resting c ≡ false → running r < parallelism)
      → IsRun parallelism first r
      → IsRun parallelism first (record r { coordinator = c })
  move-IsRun c r room h = record {
    within = h.within;
    few = h.few;
    room = room;
    counted = h.counted;
    same = h.same;
  }

  poll-IsRun : (r : Run) → IsRun parallelism first r → IsRun parallelism first (poll parallelism r)
  unfolding poll
  poll-IsRun r h =
      elim (Bool-cases (
        is_resting r.coordinator
        && ltb (running r) parallelism
        && has_next r.pending
        && not r.canceled)) [
          | inl e ↦ rw e (move-IsRun polled r (λ k. ground (arith, e)) h)
          | inr e ↦ rw e h
        ]

  check_open-IsRun : (r : Run) → IsRun parallelism first r → IsRun parallelism first (check_open r)
  unfolding check_open
  check_open-IsRun r h = elim (Bool-cases (is_polled r.coordinator)) [
    | inl e ↦ rw e (move-IsRun _ r (λ k. h.room (busy_polled r.coordinator e)) h)
    | inr e ↦ rw e h
  ]

  dispatch-IsRun :
      (r : Run) → IsRun parallelism first r → IsRun parallelism first (dispatch request r)
  unfolding dispatch
  dispatch-IsRun r h = elim (Bool-cases (is_cleared r.coordinator)) [
    | inl e ↦ rw e (
        start_next-IsRun r.pending (record r { coordinator = idle })
          (h.room (busy_cleared r.coordinator e)) refl (move-IsRun idle r (λ k. cc) h))
    | inr e ↦ rw e h
  ]

  attempt-IsRun :
      (k : ℕ) (expired : Bool) (input tokens : ℕ) (r : Run)
      → IsRun parallelism first r
      → IsRun parallelism first (attempt k expired input tokens r)
  unfolding attempt charge
  attempt-IsRun k expired input tokens r h = elim (Option-cases (nth k r.workers)) [
    | inl e ↦ rw e h
    | inr e ↦
        let ended = r.canceled || expired in
        rw (e.1) (record {
          within = reserve-IsWithin ended input tokens r.admission h.within;
          few = omega (
            arith,
            h.few,
            length-update_at (attempt_result (reserve ended input tokens r.admission).0) k
                r.workers,
          );
          room = λ b. omega (
            arith,
            h.room b,
            length-update_at (attempt_result (reserve ended input tokens r.admission).0) k
                r.workers,
          );
          counted = elim (reserve-cases ended input tokens r.admission) [
            | inl c ↦ rw (c.2, c.1) (omega (arith, h.counted, attempts-denied c.0 k r.workers))
            | inr c ↦ rw (c.4, c.3) (omega (arith, h.counted, attempts-admitted k r.workers (e.1)))
          ];
          same = elim (reserve-cases ended input tokens r.admission) [
            | inl c ↦ rw c.2 h.same
            | inr c ↦ rw c.4 h.same
          ];
        })
  ]

  finish-IsRun :
      (k : ℕ) (failure expired : Bool) (size : ℕ) (findings : Bytes) (r : Run)
      → IsRun parallelism first r
      → IsRun parallelism first (finish k failure expired size findings r)
  unfolding finish finish_of stop
  finish-IsRun k failure expired size findings r h = elim (Option-cases (nth k r.workers)) [
    | inl e ↦ rw e h
    | inr e ↦
        let o = outcome failure (r.canceled || expired) size findings (e.0) in
        let stopping = failure || ltb findings_limit size in
        rw (e.1) (record {
          within = rw (stopped-budget stopping r.admission) h.within;
          few =
              omega
                (arith, h.few, length-remove_at k r.workers (e.1), length-append r.done (o ∷ []));
          room = λ b.
              omega (
                arith,
                h.room b,
                length-remove_at k r.workers (e.1),
                length-append r.done (o ∷ []),
              );
          counted = rw (stopped-budget stopping r.admission) (
              omega (
                arith,
                h.counted,
                attempts-removed k r.workers (e.1),
                attempts-append r.done o,
                outcome-attempts failure (r.canceled || expired) size findings (e.0),
              ));
          same = rw (stopped-budget stopping r.admission) h.same;
        })
  ]

  collect_from-IsRun :
      (os : List Outcome) (r : Run)
      → r.done ≡ os
      → is_resting r.coordinator ≡ true
      → IsRun parallelism first r
      → IsRun parallelism first (collect_from os r)
  unfolding outcome_attempts
  collect_from-IsRun [] r e rests h = h
  collect_from-IsRun (o ∷ os) r e rests h = record {
    within = h.within;
    few = omega (arith, h.few, ap (λ ds. length ds) e);
    room = λ k. absurd (ground (arith, rests, k));
    counted =
        omega (arith, h.counted, ap (λ ds. outcome_attempts ds) e, attempts-append r.outcomes o);
    same = h.same;
  }

  collect-IsRun : (r : Run) → IsRun parallelism first r → IsRun parallelism first (collect r)
  unfolding collect
  collect-IsRun r h = elim (Bool-cases (is_resting r.coordinator)) [
    | inl e ↦ rw e (collect_from-IsRun r.done r refl e h)
    | inr e ↦ rw e h
  ]

  step-IsRun :
      (e : Event) (r : Run)
      → IsRun parallelism first r
      → IsRun parallelism first (step request parallelism e r)
  unfolding step
  step-IsRun checked r h = poll-IsRun r h
  step-IsRun opened r h = check_open-IsRun r h
  step-IsRun dispatched r h = dispatch-IsRun r h
  step-IsRun (attempted k expired input tokens) r h = attempt-IsRun k expired input tokens r h
  step-IsRun (finished k failure expired size findings) r h =
      finish-IsRun k failure expired size findings r h
  step-IsRun collected r h = collect-IsRun r h
  step-IsRun interrupted r h = record {
    within = h.within;
    few = h.few;
    room = h.room;
    counted = h.counted;
    same = h.same;
  }

  -- In every interleaving, a run keeps this invariant: no allowance is overdrawn, at most
  -- parallelism workers are started and not received, the requests charged since the first budget
  -- are the attempts of the workers, and the limits are those of the first budget.
  pub run_batches-IsRun :
      (es : List Event) (r : Run)
      → IsRun parallelism first r
      → IsRun parallelism first (run_batches request parallelism es r)
  unfolding run_batches
  run_batches-IsRun [] r h = h
  run_batches-IsRun (e ∷ es) r h =
      run_batches-IsRun es (step request parallelism e r) (step-IsRun e r h)

  -- A new run has charged nothing.
  pub new_run-IsRun :
      (load : Bytes → Option Bytes) (bs : List Batch)
      → IsWithin first
      → IsRun parallelism first (new_run load (record { budget = first; stopped = false }) bs)
  unfolding new_run worker_attempts outcome_attempts
  new_run-IsRun load bs h = record {
    within = h;
    few = omega arith;
    room = λ k. absurd (ground (arith, k));
    counted = omega arith;
    same = (refl, refl, refl);
  }

  -- From a new run whose allowances are not overdrawn, in any interleaving, the requests charged
  -- before and the attempts of all workers together are at most the limit on requests.
  pub run_batches-attempts :
      (load : Bytes → Option Bytes) (bs : List Batch) (es : List Event)
      → IsWithin first
      → first.requests_used
          + total_attempts (
              run_batches request parallelism es
                (new_run load (record { budget = first; stopped = false }) bs))
        ≤ first.max_requests
  run_batches-attempts load bs es h =
      let r = run_batches-IsRun es _ (new_run-IsRun load bs h) in
      omega (arith, r.within.0, r.counted, r.same.0)
