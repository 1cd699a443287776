-- ===== src/Loop/Rounds.antt =====
-- One round of a bounded run makes one attempt and ends settled otherwise; and so do all its rounds.
use software_factory_templat.Base.{
  ℕ, zero, suc, ◌+◌, ◌≤◌, ◌<◌, ◌-◌, max, Bool, true, false, leb, ltb, Option, none, some, ◌++◌,
  Bytes, codes, bytes_eq, ◌≡◌, refl, arith,
}
use software_factory_templat.Budget.Numbers.{Arithmetic}
use software_factory_templat.Loop.State.{
  Fingerprint, RunOutcome, handoff, attempt_limit, no_progress, repeated_failure, implementer,
  invoking, Row, State, World, Settings,
}
use software_factory_templat.Loop.Turn.{End, errored, Turn}
use software_factory_templat.Loop.Checkpoint.{exit_status, finish_run}
use software_factory_templat.Loop.Check.{CheckResult}
use software_factory_templat.Loop.Invoke.{Reply, replied, blocked, unanswered, is_member}
use software_factory_templat.Loop.Runes.{Unicode}
use software_factory_templat.Loop.Bounded.{
  Repair, count_progress, after_check, check_round, note_progress, after_source, implemented,
  implement, start_attempt, round, bounded,
}
use software_factory_templat.Loop.Protocol.{implementer_entries}
use software_factory_templat.Loop.Holds.{Holds, has_ended, if-Holds, bind-Holds, Holds-mono}
use software_factory_templat.Loop.Calm.{
  Spent-trans, Within, Steady, Calm, Quiet, Steady-trans, Calm-refl, Calm-trans, save-Holds,
}
use software_factory_templat.Loop.Source.{Fresh, fresh-Holds}
use software_factory_templat.Loop.Verified.{Verified, check_stage-Holds}
use software_factory_templat.Loop.Observed.{Continues, quota, invoke-Holds}
use software_factory_templat.Loop.Approval.{
  Ended, Closed, Settled, Steady-Closed, Calm-Settled, Quiet-Settled, finish_run-Settled,
}
use software_factory_templat.Loop.Reviewed.{invocation_failed-Holds, review_round-Settled}

-- Each invocation of the implementer that is noted since `r0` has its own attempt.
abbrev pub IsPaid : Row → Row → Type 0
IsPaid r0 r =
    implementer_entries r.evidence + r0.attempts ≤ implementer_entries r0.evidence + r.attempts

-- After a round that goes on.
abbrev pub Attempted : Settings → Row → {A : Type 0} → A → State → Type 0
Attempted c r0 x s =
    (s.row.attempts ≡ suc r0.attempts)
    × (s.row.attempts ≤ c.max_attempts)
    × IsPaid r0 s.row
    × Steady r0 s.row

-- After a run that has ended.
abbrev pub Final : Settings → Row → End → State → Type 0
Final c r0 e s =
    (s.row.attempts ≤ max r0.attempts c.max_attempts) × IsPaid r0 s.row × Closed r0 e s.row

-- After the implementer's turn, which may have noted one invocation.
abbrev Implemented : Row → {A : Type 0} → A → State → Type 0
Implemented r x s = Within (quota implementer r) r s.row

abbrev Stopped : Row → End → State → Type 0
Stopped r e s = Ended (quota implementer r) r e s.row

module _ (u : Unicode) (a : Arithmetic) (w : World) (c : Settings) where
  module _ (r : Row) where
    after_check-Holds :
        (p : Repair) (k : CheckResult) (s : State)
        → Verified r k s
        → Holds (Continues r) (Settled r) (after_check u a w c p k s)
    after_check-Holds p k s (calm, checked) =
        if-Holds (Continues r) (Settled r) k.passed _ _ s
          (λ e.
            Holds-mono (Continues s.row) (Settled s.row) (Continues r) (Settled r) _
              (review_round-Settled u a w c p s (checked e))
              (λ q t h. Calm-trans r s.row t.row calm h)
              (λ d t h. Calm-Settled r s.row d t.row calm h))
          (λ e.
            if-Holds (Continues r) (Settled r) (is_member k.identity p.failures) _ _ s
              (λ f. finish_run-Settled (Continues r) w r repeated_failure _ s refl calm)
              (λ f. calm))

    check_round-Holds :
        (p : Repair) (s : State)
        → Calm r s.row
        → Holds (Continues r) (Settled r) (check_round u a w c p s)
    check_round-Holds p s k =
        bind-Holds (Verified r) (Continues r) (Settled r) _ (after_check u a w c p)
          (Holds-mono (Verified r) (Quiet r) (Verified r) (Settled r) _
            (check_stage-Holds a w c r s k) (λ f t h. h) (Quiet-Settled r))
          (after_check-Holds p)

    note_progress-Holds :
        (p : Repair) (same : Bool) (s : State)
        → Calm r s.row
        → Holds (Continues r) (Settled r) (note_progress u a w c p same s)
    note_progress-Holds p same s k =
        let t : State = record s { row = count_progress same s.row } in
        if-Holds (Continues r) (Settled r) (leb c.no_progress_limit t.row.no_progress) _ _ t
          (λ e. finish_run-Settled (Continues r) w r no_progress _ t refl k)
          (λ e. check_round-Holds p t k)

    after_source-Holds :
        (p : Repair) (before : Fingerprint) (after : Option Fingerprint) (s : State)
        → Calm r s.row
        → Holds (Continues r) (Settled r) (after_source u a w c p before after s)
    after_source-Holds p before none s k = finish_run-Settled (Continues r) w r handoff _ s refl k
    after_source-Holds p before (some after) s k =
        if-Holds (Continues r) (Settled r) (ltb 1 s.row.attempts) _ _ s
          (λ e. note_progress-Holds p (bytes_eq before.source after.source) s k)
          (λ e. check_round-Holds p s k)

    implemented-Holds :
        (p : Repair) (before : Fingerprint) (reply : Reply) (s : State)
        → Calm r s.row
        → Holds (Continues r) (Settled r) (implemented u a w c p before reply s)
    implemented-Holds p before blocked s k = invocation_failed-Holds u a w c r implementer true s k
    implemented-Holds p before unanswered s k =
        invocation_failed-Holds u a w c r implementer false s k
    implemented-Holds p before (replied response) s k =
        bind-Holds (Fresh r none) (Continues r) (Settled r) _ (after_source u a w c p before)
          (Holds-mono (Fresh r none) (Quiet r) (Fresh r none) (Settled r) _
            (fresh-Holds w r c.is_bounded none s k) (λ f t h. h) (Quiet-Settled r))
          (λ f t h. after_source-Holds p before f t h.0)

  module _ (r : Row) where
    -- From a row on which the implementer may have been noted.
    after_invocation-Holds :
        (p : Repair) (before : Fingerprint) (reply : Reply) (s : State)
        → Within (quota implementer r) r s.row
        → Holds (Implemented r) (Stopped r) (implemented u a w c p before reply s)
    after_invocation-Holds p before reply s k =
        Holds-mono (Continues s.row) (Settled s.row) (Implemented r) (Stopped r) _
          (implemented-Holds s.row p before reply s (Calm-refl s.row))
          (λ q t h. (
            Spent-trans (quota implementer r) r s.row t.row k.0 h.0,
            Steady-trans r s.row t.row k.1 h.1,
          ))
          (λ e t h. (
            Spent-trans (quota implementer r) r s.row t.row k.0 h.0,
            Steady-Closed r s.row e t.row k.1 h.1,
          ))

    implement-Holds :
        (p : Repair) (before : Fingerprint) (written : Bool) (s : State)
        → Calm r s.row
        → Holds (Implemented r) (Stopped r) (implement u a w c p before written s)
    implement-Holds p before false s k =
        let settled = Quiet-Settled r errored s (refl, k) in
        ((settled.0.0, omega (arith, settled.0.1)), settled.1)
    implement-Holds p before true s k =
        bind-Holds (Implemented r) (Implemented r) (Stopped r) _ (implemented u a w c p before)
          (invoke-Holds a w c r (Stopped r) implementer (c.prompt ++ codes "\n\n" ++ p.instructions)
            s k tt)
          (after_invocation-Holds p before)

  Settled-Final : (r0 : Row) (e : End) (s : State) → Settled r0 e s → Final c r0 e s
  Settled-Final r0 e s (n, k) = (omega (arith, n.0), omega (arith, n.0, n.1), k)

  pub finish_run-Final :
      (Q : Repair → State → Type 0) (r0 : Row) (o : RunOutcome) (reason : Bytes) (s : State)
      → exit_status o ≡ 2
      → Calm r0 s.row
      → Holds Q (Final c r0) (finish_run w o reason s)
  finish_run-Final Q r0 o reason s h k =
      Holds-mono Q (Settled r0) Q (Final c r0) _ (finish_run-Settled Q w r0 o reason s h k)
        (λ q t j. j) (Settled-Final r0)

  start_attempt-Holds :
      (r0 : Row) (p : Repair) (f : Option Fingerprint) (s : State)
      → r0.attempts < c.max_attempts
      → Calm r0 s.row
      → Holds (Attempted c r0) (Final c r0) (start_attempt u a w c p f s)
  start_attempt-Holds r0 p none s below k = finish_run-Final (Attempted c r0) r0 handoff _ s refl k
  start_attempt-Holds r0 p (some before) s below k =
      let r1 : Row = record s.row { attempts = suc s.row.attempts; phase = invoking implementer } in
      Holds-mono (Implemented r1) (Stopped r1) (Attempted c r0) (Final c r0) _
        (bind-Holds (Continues r1) (Implemented r1) (Stopped r1) _ (implement u a w c p before)
          (save-Holds (Stopped r1) w (Calm r1) (record s { row = r1 }) (Calm-refl r1))
          (implement-Holds r1 p before))
        (λ q t h. (
          omega (arith, h.0.0, k.0.0),
          omega (arith, h.0.0, k.0.0, below),
          omega (arith, h.0.0, h.0.1, k.0.0, k.0.1),
          Steady-trans r0 r1 t.row k.1 h.1,
        ))
        (λ e t h. (
          omega (arith, h.0.0, k.0.0, below),
          omega (arith, h.0.0, h.0.1, k.0.0, k.0.1),
          Steady-Closed r0 r1 e t.row k.1 h.1,
        ))

  pub round-Final :
      (p : Repair) (s : State) → Holds (Attempted c s.row) (Final c s.row) (round u a w c p s)
  unfolding round
  round-Final p s =
      let t : State = record s { tick = suc s.tick } in
      if-Holds (Attempted c s.row) (Final c s.row) (leb c.max_attempts s.row.attempts) _ _ t
        (λ e. finish_run-Final (Attempted c s.row) s.row attempt_limit _ t refl (Calm-refl s.row))
        (λ e.
          if-Holds (Attempted c s.row) (Final c s.row) (w.ended s.tick) _ _ t
            (λ f. finish_run-Final (Attempted c s.row) s.row handoff _ t refl (Calm-refl s.row))
            (λ f.
              bind-Holds (Fresh s.row none) (Attempted c s.row) (Final c s.row) _
                (start_attempt u a w c p)
                (Holds-mono (Fresh s.row none) (Quiet s.row) (Fresh s.row none) (Final c s.row) _
                  (fresh-Holds w s.row c.is_bounded none t (Calm-refl s.row)) (λ g v h. h)
                  (λ d v h. Settled-Final s.row d v (Quiet-Settled s.row d v h)))
                (λ g v h. start_attempt-Holds s.row p g v (ground (arith, e)) h.0)))

  -- While the fuel lasts, each unit makes one attempt, and at most so many are made.
  abbrev pub Rounds : ℕ → Row → Repair → State → Type 0
  Rounds n r0 p s =
      (s.row.attempts ≡ n + r0.attempts)
      × (s.row.attempts ≤ max r0.attempts c.max_attempts)
      × IsPaid r0 s.row
      × Steady r0 s.row

  pub bounded-Final :
      (n : ℕ) (p : Repair) (s : State)
      → Holds (Rounds n s.row) (Final c s.row) (bounded u a w c n p s)
  unfolding bounded
  bounded-Final zero p s = (omega arith, omega arith, omega arith, (Calm-refl s.row).1)
  bounded-Final (suc n) p s =
      bind-Holds (Attempted c s.row) (Rounds (suc n) s.row) (Final c s.row) _ (bounded u a w c n)
        (round-Final p s)
        (λ q t h.
          Holds-mono (Rounds n t.row) (Final c t.row) (Rounds (suc n) s.row) (Final c s.row) _
            (bounded-Final n q t)
            (λ x v j. (
              omega (arith, h.0, j.0),
              omega (arith, h.0, h.1, j.1),
              omega (arith, h.2, j.2),
              Steady-trans s.row t.row v.row h.3 j.3,
            ))
            (λ d v j. (
              omega (arith, h.0, h.1, j.0),
              omega (arith, h.2, j.1),
              Steady-Closed s.row t.row d v.row h.3 j.2,
            )))

  pub Rounds-has_ended :
      (n : ℕ) (r0 : Row) (t : Turn Repair)
      → c.max_attempts < n + r0.attempts
      → r0.attempts < n + r0.attempts
      → Holds (Rounds n r0) (Final c r0) t
      → has_ended t ≡ true
  Rounds-has_ended n r0 (Turn.ended e s) h j k = refl
  Rounds-has_ended n r0 (Turn.go q s) h j k = ground (arith, h, j, k.0, k.1)

  -- With fuel for more attempts than are left, and at least one, a bounded run ends in every world.
  pub bounded-has_ended :
      (n : ℕ) (p : Repair) (s : State)
      → c.max_attempts - s.row.attempts < n
      → has_ended (bounded u a w c n p s) ≡ true
  bounded-has_ended n p s h =
      Rounds-has_ended n s.row (bounded u a w c n p s) (omega (arith, h)) (omega (arith, h))
        (bounded-Final n p s)
