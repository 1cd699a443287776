-- ===== src/Loop/Planned.antt =====
-- manual.go: makeManualPlan, which tells what blocks a run of the loop, with the budget's own plan.
use software_factory_templat.Base.{
  ℕ, Bool, true, false, not, ◌&&◌, Option, List, [], ◌++◌, length, Bytes, codes, Result, ok, ◌>>=◌,
  ◌>>◌, >>=-eq-ok, eq_of_ok, ap, sym, ◌∙◌, All, ◌≡◌, arith,
}
use software_factory_templat.Budget.Json.{Fields}
use software_factory_templat.Budget.Numbers.{Arithmetic}
use software_factory_templat.Budget.History.{has_active, any_row, rows}
use software_factory_templat.Budget.Plan.{
  Floats, BudgetConfig, BudgetRequest, block, make_budget_plan,
}
use software_factory_templat.Budget.Plan.Below.{
  IsBelow, append_empty, unblocked, make_budget_plan-IsBelow,
}
use software_factory_templat.Loop.Runes.{Unicode, is_blank}
use software_factory_templat.Loop.History.{is_open, validate_checkpoints}
use software_factory_templat.Loop.Resume.Eligible.{none_open}

module _ {F S : Type 0} (fl : Floats F S) (a : Arithmetic) (owner : ℕ → Option Bool)
    (utf8 valid_cost : Bytes → Bool) (u : Unicode) where
  -- The blockers of the budget's plan, which a bounded run asks for.
  abbrev pub budget_blockers :
      (is_bounded : Bool) → BudgetRequest → BudgetConfig F → Fields → Result (List Bytes)
  budget_blockers false r c b = ok []
  budget_blockers true r c b = do
    p ← make_budget_plan fl a owner utf8 valid_cost r c b
    ok p.blockers

  -- The blockers of the plan; `r` is the budget's request for the implementer.
  unfoldable pub make_manual_plan :
      (is_bounded enabled : Bool) (check_command : Bytes)
      → BudgetRequest
      → BudgetConfig F
      → (h b : Fields) → Result (List Bytes)
  unfolding validate_checkpoints has_active make_budget_plan
  make_manual_plan is_bounded enabled check_command r c h b = do
    validate_checkpoints a h
    active ← has_active a b
    more ← budget_blockers is_bounded r c b
    ok (
        block active (
          codes
            "active budget invocation blocks loop execution; confirm owned processes and recover budget metadata first")
        ++ block (is_blank u check_command)
            (codes "no loop_check_command or check_command is configured")
        ++ block (any_row is_open (rows h))
            (codes "active or uncertain checkpoint requires inspection and explicit recovery")
        ++ block (is_bounded && not enabled)
            (codes "loop feature is disabled; set loop_enabled: true")
        ++ more)

  budget_blockers-IsBelow :
      (r : BudgetRequest) (c : BudgetConfig F) (b : Fields) (more : List Bytes)
      → budget_blockers true r c b ≡ ok more
      → length more ≡ 0
      → IsBelow fl a c r (rows b)
  budget_blockers-IsBelow r c b more e none_left =
      let (p, k, e1) = >>=-eq-ok (make_budget_plan fl a owner utf8 valid_cost r c b) _ e in
      let empty_plan : length p.blockers ≡ 0 = ap length (eq_of_ok e1) ∙ none_left in
      make_budget_plan-IsBelow fl a owner utf8 valid_cost r c b p k (ground (arith, empty_plan))

  -- A plan without blockers means that the ledger has no active run, that the check command is not
  -- blank and that no checkpoint is active or uncertain; and for a bounded run that the loop and
  -- the budget are enabled and the rows of the ledger are below the attempts of the task, the runs
  -- of the session and the runs that may be concurrent.
  pub make_manual_plan-IsBelow :
      (is_bounded enabled : Bool) (check_command : Bytes) (r : BudgetRequest) (c : BudgetConfig F)
      (h b : Fields)
      → make_manual_plan is_bounded enabled check_command r c h b ≡ ok []
      → (has_active a b ≡ ok false)
        × (is_blank u check_command ≡ false)
        × All (λ q. is_open q ≡ false) (rows h)
        × (is_bounded ≡ true → (enabled ≡ true) × IsBelow fl a c r (rows b))
  unfolding make_manual_plan
  make_manual_plan-IsBelow is_bounded enabled check_command r c h b e =
      let (u1, k1, e1) = >>=-eq-ok (validate_checkpoints a h) _ e in
      let (active, k2, e2) = >>=-eq-ok (has_active a b) _ e1 in
      let (more, k3, e3) = >>=-eq-ok (budget_blockers is_bounded r c b) _ e2 in
      let (l1, h5) = append_empty _ more (ap length (eq_of_ok e3)) in
      let (l2, h4) = append_empty _ (block (is_bounded && not enabled) _) l1 in
      let (l3, h3) = append_empty _ (block (any_row is_open (rows h)) _) l2 in
      let (h1, h2) = append_empty (block active _) (block (is_blank u check_command) _) l3 in
      (
        k2 ∙ ap (λ x. ok x) (unblocked fl a active _ h1),
        unblocked fl a (is_blank u check_command) _ h2,
        none_open (rows h) (unblocked fl a (any_row is_open (rows h)) _ h3),
        λ mode. (
          ground (arith, mode, unblocked fl a (is_bounded && not enabled) _ h4),
          budget_blockers-IsBelow r c b more (sym (ap (λ m. budget_blockers m r c b) mode) ∙ k3) h5,
        ),
      )
