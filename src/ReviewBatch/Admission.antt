-- ===== src/ReviewBatch/Admission.antt =====
-- execute.go, reviewAdmission: the run-wide allowances that every worker and every retry shares.
use software_factory_templat.Base.{
  ℕ, suc, ◌+◌, ◌≤◌, ◌<◌, Bool, true, false, ◌||◌, Option, none, some, ltb, leb, if◌then◌else◌, ◌≡◌,
  refl, ◌⊎◌, inl, inr, arith, Bool-cases,
}

-- plan.go, budget
pub record Budget : Type 0 where
  pub requests_used : ℕ
  pub max_requests : ℕ
  pub tokens_reserved : ℕ
  pub max_tokens : ℕ
  pub input_reserved : ℕ
  pub max_input : ℕ

pub record Admission : Type 0 where
  pub budget : Budget
  pub stopped : Bool

-- `ctx.Err()`, `errReviewStopped`, `errReviewBudget`
pub data Denial : Type 0 where
  canceled stopped_early exhausted : Denial

-- `maxTokens > b.MaxTokens-b.TokensReserved` on int is `MaxTokens < TokensReserved + maxTokens`.
unfoldable pub is_exhausted : ℕ → ℕ → Budget → Bool
is_exhausted input tokens b =
    leb b.max_requests b.requests_used
    || ltb b.max_tokens (b.tokens_reserved + tokens)
    || ltb b.max_input (b.input_reserved + input)

unfoldable pub charge : ℕ → ℕ → Budget → Budget
charge input tokens b = record b {
  requests_used = suc b.requests_used;
  tokens_reserved = b.tokens_reserved + tokens;
  input_reserved = b.input_reserved + input;
}

unfoldable pub stop : Admission → Admission
stop a = record a { stopped = true }

-- `reserve`, whose first argument says that the context has ended; no denial is a nil error.
unfoldable pub reserve : Bool → ℕ → ℕ → Admission → Option Denial × Admission
unfolding is_exhausted charge stop
reserve ended input tokens a =
    if ended
    then (some canceled, a)
    else (if a.stopped
        then (some stopped_early, a)
        else (if is_exhausted input tokens a.budget
            then (some exhausted, stop a)
            else (none, record a { budget = charge input tokens a.budget })))

-- No allowance is overdrawn.
abbrev pub IsWithin : Budget → Type 0
IsWithin b =
    (b.requests_used ≤ b.max_requests)
    × (b.tokens_reserved ≤ b.max_tokens)
    × (b.input_reserved ≤ b.max_input)

pub reserve-cases :
    (ended : Bool) (input tokens : ℕ) (a : Admission)
    → ((d : Denial) × ((reserve ended input tokens a).0 ≡ some d)
        × ((reserve ended input tokens a).1.budget ≡ a.budget)
        × (a.stopped ≡ true → (reserve ended input tokens a).1.stopped ≡ true))
      ⊎ ((ended ≡ false)
          × (a.stopped ≡ false)
          × (is_exhausted input tokens a.budget ≡ false)
          × ((reserve ended input tokens a).0 ≡ none)
          × ((reserve ended input tokens a).1.budget ≡ charge input tokens a.budget)
          × ((reserve ended input tokens a).1.stopped ≡ a.stopped))
unfolding reserve stop
reserve-cases ended input tokens a = elim (Bool-cases ended) [
  | inl e ↦ rw e (inl (canceled, refl, refl, λ h. h))
  | inr e ↦ rw e (elim (Bool-cases a.stopped) [
    | inl s ↦ rw s (inl (stopped_early, refl, refl, λ h. refl))
    | inr s ↦ rw s (elim (Bool-cases (is_exhausted input tokens a.budget)) [
      | inl x ↦ rw x (inl (exhausted, refl, refl, λ h. refl))
      | inr x ↦ rw x (inr (refl, refl, refl, refl, refl, refl))
    ])
  ])
]

charge-IsWithin :
    (input tokens : ℕ) (b : Budget)
    → is_exhausted input tokens b ≡ false
    → IsWithin b
    → IsWithin (charge input tokens b)
unfolding is_exhausted charge
charge-IsWithin input tokens b x h = ground arith

pub reserve-IsWithin :
    (ended : Bool) (input tokens : ℕ) (a : Admission)
    → IsWithin a.budget
    → IsWithin (reserve ended input tokens a).1.budget
reserve-IsWithin ended input tokens a h = elim (reserve-cases ended input tokens a) [
  | inl c ↦ rw c.2 h
  | inr c ↦ rw c.4 (charge-IsWithin input tokens a.budget c.2 h)
]

-- The request fits what is left of every allowance.
abbrev pub Fits : ℕ → ℕ → Budget → Type 0
Fits input tokens b =
    (b.requests_used < b.max_requests)
    × (b.tokens_reserved + tokens ≤ b.max_tokens)
    × (b.input_reserved + input ≤ b.max_input)

-- Some allowance is spent, or too small for the request.
abbrev pub Exceeds : ℕ → ℕ → Budget → Type 0
Exceeds input tokens b =
    (b.max_requests ≤ b.requests_used)
    ⊎ ((b.max_tokens < b.tokens_reserved + tokens) ⊎ (b.max_input < b.input_reserved + input))

exhausted-Exceeds :
    (input tokens : ℕ) (b : Budget) → is_exhausted input tokens b ≡ true → Exceeds input tokens b
unfolding is_exhausted
exhausted-Exceeds input tokens b h = elim (Bool-cases (leb b.max_requests b.requests_used)) [
  | inl e ↦ inl (ground (arith, e))
  | inr e ↦ elim (Bool-cases (ltb b.max_tokens (b.tokens_reserved + tokens))) [
    | inl f ↦ inr (inl (ground (arith, f)))
    | inr f ↦ inr (inr (ground (arith, h, e, f)))
  ]
]

admitted-Fits :
    (input tokens : ℕ) (b : Budget) → is_exhausted input tokens b ≡ false → Fits input tokens b
unfolding is_exhausted
admitted-Fits input tokens b h = ground arith

-- What the answer `d` says of the request and of the admission `a`, which becomes `t`.
abbrev pub Answers : Bool → ℕ → ℕ → Admission → Option Denial → Admission → Type 0
Answers ended input tokens a (some canceled) t = (ended ≡ true) × (t ≡ a)
Answers ended input tokens a (some stopped_early) t = (ended ≡ false) × (a.stopped ≡ true) × (t ≡ a)
Answers ended input tokens a (some exhausted) t =
    (ended ≡ false)
    × (a.stopped ≡ false)
    × Exceeds input tokens a.budget
    × (t.stopped ≡ true)
    × (t.budget ≡ a.budget)
Answers ended input tokens a none t =
    (ended ≡ false)
    × (a.stopped ≡ false)
    × Fits input tokens a.budget
    × (t.stopped ≡ false)
    × (t.budget.requests_used ≡ a.budget.requests_used + 1)
    × (t.budget.tokens_reserved ≡ a.budget.tokens_reserved + tokens)
    × (t.budget.input_reserved ≡ a.budget.input_reserved + input)
    × (t.budget.max_requests ≡ a.budget.max_requests)
    × (t.budget.max_tokens ≡ a.budget.max_tokens)
    × (t.budget.max_input ≡ a.budget.max_input)

-- A reservation is denied as canceled only when the context has ended and as stopped only when
-- admission is stopped, and then nothing changes; as exhausted only when the context has not
-- ended, admission is open, and the requests are spent or the tokens or the input go over their
-- limits, and then admission is stopped and nothing is charged; it is admitted only when the
-- context has not ended, admission is open, and one more request, its tokens and its input stay
-- within the limits, and then admission stays open, exactly these are charged, and the limits are
-- as before.
pub reserve-Answers :
    (ended : Bool) (input tokens : ℕ) (a : Admission)
    → Answers ended input tokens a (reserve ended input tokens a).0 (reserve ended input tokens a).1
unfolding reserve stop charge
reserve-Answers ended input tokens a = elim (Bool-cases ended) [
  | inl e ↦ rw e (refl, refl)
  | inr e ↦ rw e (elim (Bool-cases a.stopped) [
    | inl s ↦ rw s (refl, refl, refl)
    | inr s ↦ rw s (elim (Bool-cases (is_exhausted input tokens a.budget)) [
      | inl x ↦ rw x (refl, refl, exhausted-Exceeds input tokens a.budget x, refl, refl)
      | inr x ↦ rw x (
        refl,
        refl,
        admitted-Fits input tokens a.budget x,
        refl,
        omega arith,
        refl,
        refl,
        refl,
        refl,
        refl,
      )
    ])
  ])
]
