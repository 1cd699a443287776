-- ===== src/ReviewBatch/Execute/Attempts.antt =====
-- The attempts of the workers of execute.go, counted over the run.
use software_factory_templat.Base.{
  ℕ, zero, suc, ◌+◌, Bool, ◌||◌, none, some, List, [], ◌∷◌, ◌++◌, ltb, Bytes, length, ◌≡◌, refl,
  sym, ap, inl, inr, arith, Bool-cases, eq_of_some,
}
use software_factory_templat.ReviewBatch.Admission.{Denial}
use software_factory_templat.ReviewBatch.Execute.{
  Worker, Outcome, Run, nth, update_at, remove_at, attempt_result, findings_limit, outcome,
}

-- The attempts that the provider has seen.
unfoldable pub worker_attempts : List Worker → ℕ
worker_attempts [] = 0
worker_attempts (w ∷ ws) = w.attempts + worker_attempts ws

unfoldable pub outcome_attempts : List Outcome → ℕ
outcome_attempts [] = 0
outcome_attempts (o ∷ os) = o.attempts + outcome_attempts os

abbrev pub total_attempts : Run → ℕ
total_attempts r =
    worker_attempts r.workers + (outcome_attempts r.done + outcome_attempts r.outcomes)

pub length-update_at {ℓ} :
    {A : Type ℓ} (f : A → A) (k : ℕ) (xs : List A) → length (update_at f k xs) ≡ length xs
length-update_at f k [] = refl
length-update_at f zero (x ∷ xs) = refl
length-update_at f (suc k) (x ∷ xs) = omega (arith, length-update_at f k xs)

pub length-remove_at {ℓ} :
    {A : Type ℓ} (k : ℕ) (xs : List A) {x : A}
    → nth k xs ≡ some x
    → suc (length (remove_at k xs)) ≡ length xs
length-remove_at k [] h = cc
length-remove_at zero (x ∷ xs) h = refl
length-remove_at (suc k) (x ∷ xs) h = omega (arith, length-remove_at k xs h)

pub attempts-denied :
    (d : Denial) (k : ℕ) (ws : List Worker)
    → worker_attempts (update_at (attempt_result (some d)) k ws) ≡ worker_attempts ws
unfolding worker_attempts
attempts-denied d k [] = refl
attempts-denied d zero (w ∷ ws) = refl
attempts-denied d (suc k) (w ∷ ws) = omega (arith, attempts-denied d k ws)

pub attempts-admitted :
    (k : ℕ) (ws : List Worker) {w : Worker}
    → nth k ws ≡ some w
    → worker_attempts (update_at (attempt_result none) k ws) ≡ suc (worker_attempts ws)
unfolding worker_attempts
attempts-admitted k [] h = cc
attempts-admitted zero (w ∷ ws) h = omega arith
attempts-admitted (suc k) (w ∷ ws) h = omega (arith, attempts-admitted k ws h)

pub attempts-removed :
    (k : ℕ) (ws : List Worker) {w : Worker}
    → nth k ws ≡ some w
    → w.attempts + worker_attempts (remove_at k ws) ≡ worker_attempts ws
unfolding worker_attempts
attempts-removed k [] h = cc
attempts-removed zero (w ∷ ws) h = ap (λ x. x.attempts + worker_attempts ws) (sym (eq_of_some h))
attempts-removed (suc k) (w ∷ ws) h = omega (arith, attempts-removed k ws h)

pub attempts-append :
    (os : List Outcome) (o : Outcome)
    → outcome_attempts (os ++ o ∷ []) ≡ outcome_attempts os + o.attempts
unfolding outcome_attempts
attempts-append [] o = omega arith
attempts-append (p ∷ os) o = omega (arith, attempts-append os o)

pub outcome-attempts :
    (failure ended : Bool) (size : ℕ) (findings : Bytes) (w : Worker)
    → (outcome failure ended size findings w).attempts ≡ w.attempts
unfolding outcome
outcome-attempts failure ended size findings w =
    elim (Bool-cases (failure || ltb findings_limit size)) [ inl e ↦ rw e refl | inr e ↦ rw e refl ]
