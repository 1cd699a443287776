-- ===== src/Loop/Invoke.antt =====
-- bounded.go: invoke, addBudgetRun and reconcile, one model invocation through the budget runner.
use software_factory_templat.Base.{
  ℕ, zero, suc, Bool, true, false, not, ◌&&◌, ◌||◌, ◌==◌, Option, none, some, List, [], ◌∷◌, ◌++◌,
  Bytes, codes, bytes_eq, if◌then◌else◌, Result, ok, err,
}
use software_factory_templat.Budget.Json.{Fields}
use software_factory_templat.Budget.Numbers.{Arithmetic, Integer}
use software_factory_templat.Budget.Observation.{Invocation, observe, matching_active}
use software_factory_templat.Loop.State.{
  Role, implementer, reviewer, invoking, invoked, Row, Answer, World, Settings,
}
use software_factory_templat.Loop.Turn.{M, ◌>>=◌, ◌>>◌, pure, modify, gets, ask}
use software_factory_templat.Loop.Checkpoint.{save, mark_uncertain, append_evidence, positive}
use software_factory_templat.Loop.Check.{has_value}

-- A response, `invocationBlocked`, or another error.
pub data Reply : Type 0 where
  replied : (response : Bytes) → Reply
  blocked unanswered : Reply

abbrev pub role_name : Role → Bytes
role_name implementer = codes "implementer"
role_name reviewer = codes "reviewer"

abbrev pub is_member : Bytes → List Bytes → Bool
is_member x [] = false
is_member x (y ∷ ys) = bytes_eq y x || is_member x ys

-- addBudgetRun, which answers whether the run is new.
unfoldable pub add_budget_run : Bytes → Row → Row
add_budget_run id r =
    if is_member id r.budget_runs then r else record r { budget_runs = r.budget_runs ++ (id ∷ []) }

abbrev pub note_process : Option Integer → Row → Row
note_process none r = r
note_process (some pid) r = record r { process_pid = some pid }

abbrev pub note_new_run : Role → Invocation → Row → Row
note_new_run role i r =
    if is_member i.id r.budget_runs
    then r
    else append_evidence (invoked role i.id i.outcome) (add_budget_run i.id r)

-- What a matching observation adds to the row.
unfoldable pub note_observation : Role → Invocation → Row → Row
unfolding add_budget_run
note_observation role i r =
    let added = note_new_run role i r in
    if bytes_eq i.status (codes "active")
    then note_process i.process_pid (record added { uncertain = true })
    else added

abbrev pub is_expected : Settings → Role → Invocation → Bool
is_expected c role i =
    bytes_eq i.session c.session
    && bytes_eq i.task c.task
    && bytes_eq i.harness c.harness
    && bytes_eq i.role (role_name role)

abbrev pub note_ownership : Option ℕ → Row → Row
note_ownership none r = record r { uncertain = false }
note_ownership (some zero) r = record r { uncertain = true }
note_ownership (some (suc n)) r = record r {
  uncertain = true;
  process_pid = some (positive (suc n));
}

-- One active invocation of reconcile.
unfoldable pub reconcile_row : Option ℕ → Invocation → Row → Row
unfolding add_budget_run
reconcile_row ownership i r =
    let added = add_budget_run i.id (record r { uncertain = true }) in
    if has_value ownership then added else note_process i.process_pid added

unfoldable pub reconcile_rows : Option ℕ → List Invocation → Row → Row
unfolding reconcile_row
reconcile_rows ownership [] r = r
reconcile_rows ownership (i ∷ is) r = reconcile_rows ownership is (reconcile_row ownership i r)

module _ (a : Arithmetic) (w : World) (c : Settings) where
  abbrev pub reconcile_active : Option ℕ → Result (List Invocation) → M (Unit {0})
  reconcile_active ownership (err message) = mark_uncertain
  reconcile_active ownership (ok is) = modify (reconcile_rows ownership is)

  abbrev pub reconcile_ledger : Option ℕ → Option Fields → M (Unit {0})
  reconcile_ledger ownership none = mark_uncertain
  reconcile_ledger ownership (some history) = do
    late ← ask w.observing_ended
    if late
        then mark_uncertain
        else reconcile_active ownership (matching_active a history c.session c.task)

  unfoldable pub reconcile : Option ℕ → M (Unit {0})
  unfolding reconcile_rows matching_active
  reconcile ownership = do
    modify (note_ownership ownership)
    ledger ← ask w.ledger
    reconcile_ledger ownership ledger

  -- The answer's record; false where it is not that of this invocation.
  abbrev pub note_observed : Role → Result Invocation → M Bool
  note_observed role (err message) = pure false
  note_observed role (ok i) =
      if is_expected c role i then modify (note_observation role i) >> pure true else pure false

  unfoldable pub note_record : Role → Option Fields → M Bool
  unfolding note_observation observe
  note_record role none = pure true
  note_record role (some r) = do
    late ← ask w.observing_ended
    if late then pure false else note_observed role (observe a r)

  abbrev pub after_publication : Answer → Bool → M Reply
  after_publication answer false = pure unanswered
  after_publication answer true = do
    late ← ask w.ended
    uncertain ← gets (λ s. s.row.uncertain)
    if not (answer.exit_code == 0) || late || uncertain
        then pure unanswered
        else pure (replied answer.response)

  abbrev pub conclude_invocation : Role → Answer → Bool → M Reply
  conclude_invocation role answer false = reconcile none >> pure unanswered
  conclude_invocation role answer true =
      if answer.failed
      then reconcile answer.ownership >> pure unanswered
      else if has_value answer.ledger_record
      then save w >>= after_publication answer
      else pure blocked

  abbrev pub run_invocation : Role → Bytes → Bool → M Reply
  run_invocation role text false = pure unanswered
  run_invocation role text true = do
    answer ← ask (λ n. w.invoke n role text)
    noted ← note_record role answer.ledger_record
    conclude_invocation role answer noted

  unfoldable pub invoke : Role → Bytes → M Reply
  unfolding reconcile note_record
  invoke role text = do
    late ← ask w.ended
    spent ← ask w.out_of_time
    if late || spent
        then pure unanswered
        else modify (λ r. record r { phase = invoking role })
          >> (save w >>= run_invocation role text)
