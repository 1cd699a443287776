-- ===== src/Budget/Plan/Below.antt =====
-- A plan without blockers is below the limits of the configuration.
use software_factory_templat.Base.{
  ℕ, suc, ◌+◌, ◌-◌, ◌≤◌, ◌<◌, Bool, true, false, not, ◌&&◌, ◌==◌, ==_iff, leb, Option, List, [],
  ◌∷◌, ◌++◌, length, length-append, Bytes, codes, bytes_eq, if◌then◌else◌, Result, ok, >>=-eq-ok,
  eq_of_ok, ap, sym, ◌∙◌, ◌≡◌, refl, arith, ◌⊎◌, inl, inr,
}
use software_factory_templat.Budget.Json.{Fields, get, is_null}
use software_factory_templat.Budget.Numbers.{Arithmetic}
use software_factory_templat.Budget.History.{is_active, rows, validate_history}
use software_factory_templat.Budget.Plan.{
  Floats, BudgetConfig, BudgetRequest, BudgetPlan, Tally, block, in_session, in_task, append_if,
  add_cost, validate_request, validate_config, tally_session, tally_row, tally_rows, no_tally,
  own_blockers, limit_blockers, plan_of, is_clear, make_budget_plan, active_blockers, cost_concerns,
  is_given,
}

-- How many rows pass a test.
abbrev pub count : (Fields → Bool) → List Fields → ℕ
count test [] = 0
count test (r ∷ rs) = if test r then suc (count test rs) else count test rs

pub count-append :
    (test : Fields → Bool) (xs : List Fields) (r : Fields)
    → count test (xs ++ (r ∷ [])) ≤ suc (count test xs)
count-append test [] r = ground arith
count-append test (x ∷ xs) r = ground (arith, count-append test xs r)

length-append_if :
    (b : Bool) (xs : List Fields) (r : Fields)
    → length (append_if b xs r) ≡ length xs + (if b then 1 else 0)
length-append_if true xs r = length-append xs (r ∷ [])
length-append_if false xs r = omega arith

-- A successful conditional is one of its branches.
pub if-eq-ok :
    {X : Type 0} (b : Bool) (x y : Result X) {u : X}
    → (if b then x else y) ≡ ok u
    → ((b ≡ true) × (x ≡ ok u)) ⊎ ((b ≡ false) × (y ≡ ok u))
if-eq-ok true x y e = inl (refl, e)
if-eq-ok false x y e = inr (refl, e)

pub append_empty : (xs ys : List Bytes) → length (xs ++ ys) ≡ 0 → (length xs ≡ 0) × (length ys ≡ 0)
append_empty xs ys h = omega (arith, length-append xs ys, h)

count_both :
    (b : Bool) (x y z n : ℕ)
    → y ≡ x + (if b then 1 else 0)
    → z ≡ y + n
    → z ≡ x + (if b then suc n else n)
count_both true x y z n h k = omega (arith, h, k)
count_both false x y z n h k = omega (arith, h, k)

-- The tally of some rows is that of the rows before and of these.
abbrev pub IsTally : {S : Type 0} → BudgetRequest → List Fields → Tally S → Tally S → Type 0
IsTally r rs t u =
    (length u.task ≡ length t.task + count (in_task r) rs)
    × (length u.session ≡ length t.session + count (in_session r) rs)
    × (length u.active ≡ length t.active + count is_active rs)

module _ {F S : Type 0} (fl : Floats F S) (a : Arithmetic) where
  tally_session-lem :
      (c : BudgetConfig F) (r : BudgetRequest) (row : Fields) (t u : Tally S)
      → tally_session fl a c r row t ≡ ok u
      → (u.session ≡ t.session ++ (row ∷ []))
        × (u.task ≡ append_if (in_task r row) t.task row)
        × (u.active ≡ t.active)
  tally_session-lem c r row t u e =
      let (charge, k1, e1) =
        >>=-eq-ok
          (fl.add t.charge
            (get row (if is_active row then codes "reserved_seconds" else codes "elapsed_seconds")))
          _ e in
      let (cost, k2, e2) =
        >>=-eq-ok
          (add_cost fl a
            (is_given c.estimated_usd && not (is_null (get row (codes "estimated_usd")))) t.cost
            (get row (codes "estimated_usd")))
          _ e1 in
      let same = eq_of_ok e2 in
      (sym (ap (λ v. v.session) same), sym (ap (λ v. v.task) same), sym (ap (λ v. v.active) same))

  tally_row-IsTally :
      (c : BudgetConfig F) (r : BudgetRequest) (row : Fields) (t u : Tally S)
      → tally_row fl a c r row t ≡ ok u
      → IsTally r (row ∷ []) t u
  tally_row-IsTally c r row t u e =
      let counted : Tally S = record t { active = append_if (is_active row) t.active row } in
      let la = length-append_if (is_active row) t.active row in
      elim (if-eq-ok (in_session r row) (tally_session fl a c r row counted) (ok counted) e) [
        | inl (h, e1) ↦
            let k = tally_session-lem c r row counted u e1 in
            (
              ap length k.1 ∙ length-append_if (in_task r row) t.task row,
              ap length k.0 ∙ (rw h (length-append t.session (row ∷ []))),
              ap length k.2 ∙ la,
            )
        | inr (h, e1) ↦
            let same = eq_of_ok e1 in
            (
              sym (ap (λ v. length v.task) same) ∙ (rw h (omega arith)),
              sym (ap (λ v. length v.session) same) ∙ (rw h (omega arith)),
              sym (ap (λ v. length v.active) same) ∙ la,
            )
      ]

  IsTally-cons :
      (r : BudgetRequest) (row : Fields) (rs : List Fields) (t u v : Tally S)
      → IsTally r (row ∷ []) t u
      → IsTally r rs u v
      → IsTally r (row ∷ rs) t v
  IsTally-cons r row rs t u v h k = (
    count_both (in_task r row) _ _ _ _ h.0 k.0,
    count_both (in_session r row) _ _ _ _ h.1 k.1,
    count_both (is_active row) _ _ _ _ h.2 k.2,
  )

  tally_rows-IsTally :
      (c : BudgetConfig F) (r : BudgetRequest) (rs : List Fields) (t u : Tally S)
      → tally_rows fl a c r rs t ≡ ok u
      → IsTally r rs t u
  unfolding tally_rows
  tally_rows-IsTally c r [] t u e =
      let same = eq_of_ok e in
      (
        sym (ap (λ v. length v.task) same) ∙ omega arith,
        sym (ap (λ v. length v.session) same) ∙ omega arith,
        sym (ap (λ v. length v.active) same) ∙ omega arith,
      )
  tally_rows-IsTally c r (row ∷ rs) t u e =
      let (v, e1, e2) = >>=-eq-ok (tally_row fl a c r row t) _ e in
      IsTally-cons r row rs t v u (tally_row-IsTally c r row t v e1)
        (tally_rows-IsTally c r rs v u e2)

  -- A test that blocks nothing.
  length-block : (b : Bool) (m : Bytes) → length (block b m) ≡ (if b then 1 else 0)
  length-block true m = refl
  length-block false m = refl

  pub unblocked : (b : Bool) (m : Bytes) → length (block b m) ≡ 0 → b ≡ false
  unblocked b m h = ground (arith, h, length-block b m)

  no_limit :
      (c : BudgetConfig F) (t : Tally S) (seconds : F)
      → length (limit_blockers fl a c t seconds) ≡ 0
      → (length t.task < c.max_attempts)
        × (length t.session < c.max_session_runs)
        × (length t.active < c.max_concurrent)
  unfolding limit_blockers
  no_limit c t seconds h =
      let (k2, h4) =
        append_empty _
          (block (leb c.max_concurrent (length t.active))
            (codes "checkout concurrency limit reached"))
          h in
      let (k1, h3) =
        append_empty _ (block (fl.is_spent seconds) (codes "session time limit reached")) k2 in
      let (h1, h2) =
        append_empty
          (block (c.max_attempts - length t.task == 0) (codes "task attempt limit reached"))
          (block (c.max_session_runs - length t.session == 0) (codes "session run limit reached"))
          k1 in
      let attempts = unblocked (c.max_attempts - length t.task == 0) _ h1 in
      let runs = unblocked (c.max_session_runs - length t.session == 0) _ h2 in
      let concurrent = unblocked (leb c.max_concurrent (length t.active)) _ h4 in
      (ground (arith, attempts), ground (arith, runs), ground (arith, concurrent))

  -- The configuration's limits are not reached by the rows.
  abbrev pub IsBelow : BudgetConfig F → BudgetRequest → List Fields → Type 0
  IsBelow c r rs =
      (c.enabled ≡ true)
      × (count (in_task r) rs < c.max_attempts)
      × (count (in_session r) rs < c.max_session_runs)
      × (count is_active rs < c.max_concurrent)

  module _ (owner : ℕ → Option Bool) (utf8 valid_cost : Bytes → Bool) where
    plan_of-IsBelow :
        (c : BudgetConfig F) (r : BudgetRequest) (rs : List Fields) (t : Tally S) (seconds : F)
        (actives concerns : List Bytes)
        → IsTally r rs (no_tally fl a) t
        → length (plan_of fl a owner utf8 valid_cost c r t seconds actives concerns).blockers ≡ 0
        → IsBelow c r rs
    plan_of-IsBelow c r rs t seconds actives concerns tally h =
        let stopping : List Bytes = if bytes_eq c.action (codes "stop") then concerns else [] in
        let (k1, h1) = append_empty _ stopping h in
        let (k2, h2) = append_empty _ (limit_blockers fl a c t seconds) k1 in
        let (k3, h3) = append_empty (own_blockers fl a c r) actives k2 in
        let (h4, h5) =
          append_empty
            (block (not c.enabled) (
              codes "budget feature is disabled; set budget_enabled: true to permit explicit runs"))
            (block (is_given r.max_cost_usd) (
              codes
                "strict USD ceilings are unsupported for all harnesses; estimates are not billing limits"))
            k3 in
        let limits = no_limit c t seconds h2 in
        (
          ground (arith, unblocked (not c.enabled) _ h4),
          omega (arith, limits.0, tally.0),
          omega (arith, limits.1, tally.1),
          omega (arith, limits.2, tally.2),
        )

    -- A plan without blockers is within the limits.
    pub make_budget_plan-IsBelow :
        (r : BudgetRequest) (c : BudgetConfig F) (h : Fields) (p : BudgetPlan F)
        → make_budget_plan fl a owner utf8 valid_cost r c h ≡ ok p
        → is_clear p ≡ true
        → IsBelow c r (rows h)
    unfolding make_budget_plan
    make_budget_plan-IsBelow r c h p e clear =
        let (u1, k1, e1) = >>=-eq-ok (validate_request utf8 valid_cost r) _ e in
        let (u2, k2, e2) = >>=-eq-ok (validate_config fl a c) _ e1 in
        let (u3, k3, e3) = >>=-eq-ok (validate_history a h) _ e2 in
        let (t, k4, e4) = >>=-eq-ok (tally_rows fl a c r (rows h) (no_tally fl a)) _ e3 in
        let (charged, k5, e5) = >>=-eq-ok (fl.float t.charge) _ e4 in
        let (actives, k6, e6) = >>=-eq-ok (active_blockers a owner t.active) _ e5 in
        let (concerns, k7, e7) = >>=-eq-ok (cost_concerns fl a r t c.estimated_usd) _ e6 in
        let none_left : length p.blockers ≡ 0 = (==_iff (length p.blockers) 0).0 clear in
        plan_of-IsBelow c r (rows h) t (fl.remaining c.session_seconds charged) actives concerns
          (tally_rows-IsTally c r (rows h) (no_tally fl a) t k4)
          (ap (λ q. length q.blockers) (eq_of_ok e7) ∙ none_left)
