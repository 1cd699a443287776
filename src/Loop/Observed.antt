-- ===== src/Loop/Observed.antt =====
-- What invoke leaves of the row: it notes the run, its process and whether it is uncertain.
use software_factory_templat.Base.{
  zero, suc, Bool, true, false, not, ◌||◌, ◌==◌, Option, none, some, List, [], ◌∷◌, Bytes, codes,
  bytes_eq, Result, ok, err, Bool-cases, inl, inr, ℕ, arith, refl,
}
use software_factory_templat.Budget.Json.{Fields}
use software_factory_templat.Budget.Numbers.{Arithmetic, Integer}
use software_factory_templat.Budget.Observation.{Invocation, observe, matching_active}
use software_factory_templat.Loop.State.{
  Role, implementer, reviewer, invoked, Row, State, Answer, World, Settings,
}
use software_factory_templat.Loop.Turn.{End}
use software_factory_templat.Loop.Checkpoint.{append_evidence}
use software_factory_templat.Loop.Check.{has_value}
use software_factory_templat.Loop.Invoke.{
  is_member, add_budget_run, note_process, note_new_run, note_observation, is_expected,
  note_ownership, reconcile_row, reconcile_rows, reconcile_active, reconcile_ledger, reconcile,
  note_observed, note_record, after_publication, conclude_invocation, run_invocation, invoke,
}
use software_factory_templat.Loop.Protocol.{
  implementer_entries, implementer_entries-append, add, MayInvoke, MayInvoke-Extends, Steps-Extends,
}
use software_factory_templat.Loop.Holds.{Holds, if-Holds, bind-Holds}
use software_factory_templat.Loop.Calm.{Within, Calm, Calm-append_evidence, save-Holds}

pub add_budget_run-Within :
    (q : ℕ) (r0 r : Row) (id : Bytes) → Within q r0 r → Within q r0 (add_budget_run id r)
unfolding add_budget_run
add_budget_run-Within q r0 r id k = elim (Bool-cases (is_member id r.budget_runs)) [
  | inl e ↦ rw e k
  | inr e ↦ rw e k
]

pub note_process-Within :
    (q : ℕ) (r0 r : Row) (p : Option Integer) → Within q r0 r → Within q r0 (note_process p r)
note_process-Within q r0 r none k = k
note_process-Within q r0 r (some p) k = k

-- What may be noted from a row on when a role is invoked once.
abbrev pub quota : Role → Row → ℕ
quota implementer r = suc (implementer_entries r.evidence)
quota reviewer r = implementer_entries r.evidence

quota-Within : (role : Role) (r0 r : Row) → Calm r0 r → Within (quota role r0) r0 r
quota-Within implementer r0 r k = ((k.0.0, omega (arith, k.0.1)), k.1)
quota-Within reviewer r0 r k = k

append_invoked-Within :
    (r0 r : Row) (role : Role) (id outcome : Bytes)
    → Calm r0 r
    → MayInvoke role r.evidence
    → Within (quota role r0) r0 (append_evidence (invoked role id outcome) r)
append_invoked-Within r0 r implementer id outcome ((n, m), (a, b, c, d, f)) may = (
  (n, omega (arith, implementer_entries-append r.evidence (invoked implementer id outcome), m)),
  (a, b, c, add (invoked implementer id outcome) d may, f),
)
append_invoked-Within r0 r reviewer id outcome k may =
    Calm-append_evidence r0 r (invoked reviewer id outcome) k may refl

pub note_new_run-Within :
    (r0 r : Row) (role : Role) (i : Invocation)
    → Calm r0 r
    → MayInvoke role r0.evidence
    → Within (quota role r0) r0 (note_new_run role i r)
note_new_run-Within r0 r role i k may = elim (Bool-cases (is_member i.id r.budget_runs)) [
  | inl e ↦ rw e (quota-Within role r0 r k)
  | inr e ↦
      let added : Row = add_budget_run i.id r in
      let calm : Calm r0 added =
        add_budget_run-Within (implementer_entries r0.evidence) r0 r i.id k in
      rw e (
        append_invoked-Within r0 added role i.id i.outcome calm
          (MayInvoke-Extends role r0.evidence added.evidence may (Steps-Extends calm.1.3)))
]

pub note_observation-Within :
    (r0 r : Row) (role : Role) (i : Invocation)
    → Calm r0 r
    → MayInvoke role r0.evidence
    → Within (quota role r0) r0 (note_observation role i r)
unfolding note_observation
note_observation-Within r0 r role i k may = elim (Bool-cases (bytes_eq i.status (codes "active"))) [
  | inl e ↦ rw e (
      note_process-Within (quota role r0) r0 (record (note_new_run role i r) { uncertain = true })
        i.process_pid (note_new_run-Within r0 r role i k may))
  | inr e ↦ rw e (note_new_run-Within r0 r role i k may)
]

pub note_ownership-Within :
    (q : ℕ) (r0 r : Row) (o : Option ℕ) → Within q r0 r → Within q r0 (note_ownership o r)
note_ownership-Within q r0 r none k = k
note_ownership-Within q r0 r (some zero) k = k
note_ownership-Within q r0 r (some (suc n)) k = k

pub reconcile_row-Within :
    (q : ℕ) (r0 r : Row) (o : Option ℕ) (i : Invocation)
    → Within q r0 r
    → Within q r0 (reconcile_row o i r)
unfolding reconcile_row
reconcile_row-Within q r0 r none i k =
    note_process-Within q r0 (add_budget_run i.id (record r { uncertain = true })) i.process_pid
      (add_budget_run-Within q r0 (record r { uncertain = true }) i.id k)
reconcile_row-Within q r0 r (some n) i k =
    add_budget_run-Within q r0 (record r { uncertain = true }) i.id k

pub reconcile_rows-Within :
    (q : ℕ) (r0 r : Row) (o : Option ℕ) (is : List Invocation)
    → Within q r0 r
    → Within q r0 (reconcile_rows o is r)
unfolding reconcile_rows
reconcile_rows-Within q r0 r o [] k = k
reconcile_rows-Within q r0 r o (i ∷ is) k =
    reconcile_rows-Within q r0 (reconcile_row o i r) o is (reconcile_row-Within q r0 r o i k)

-- A step that goes on, with the row calm.
abbrev pub Continues : {A : Type 0} → Row → A → State → Type 0
Continues r0 x s = Calm r0 s.row

-- The same, with more invocations noted.
abbrev pub Noted : {A : Type 0} → ℕ → Row → A → State → Type 0
Noted q r0 x s = Within q r0 s.row

module _ (a : Arithmetic) (w : World) (c : Settings) (r0 : Row) (R : End → State → Type 0) where
  reconcile_active-Holds :
      (q : ℕ) (o : Option ℕ) (is : Result (List Invocation)) (s : State)
      → Within q r0 s.row
      → Holds (Noted q r0) R (reconcile_active a w c o is s)
  reconcile_active-Holds q o (err m) s k = k
  reconcile_active-Holds q o (ok is) s k = reconcile_rows-Within q r0 s.row o is k

  reconcile_ledger-Holds :
      (q : ℕ) (o : Option ℕ) (ledger : Option Fields) (s : State)
      → Within q r0 s.row
      → Holds (Noted q r0) R (reconcile_ledger a w c o ledger s)
  reconcile_ledger-Holds q o none s k = k
  reconcile_ledger-Holds q o (some h) s k =
      if-Holds (Noted q r0) R (w.observing_ended s.tick) _ _ (record s { tick = suc s.tick })
        (λ e. k) (λ e. reconcile_active-Holds q o (matching_active a h c.session c.task) _ k)

  pub reconcile-Holds :
      (q : ℕ) (o : Option ℕ) (s : State)
      → Within q r0 s.row
      → Holds (Noted q r0) R (reconcile a w c o s)
  unfolding reconcile
  reconcile-Holds q o s k =
      reconcile_ledger-Holds q o (w.ledger s.tick) _ (note_ownership-Within q r0 s.row o k)

  note_observed-Holds :
      (role : Role) (i : Result Invocation) (s : State)
      → Calm r0 s.row
      → MayInvoke role r0.evidence
      → Holds (Noted (quota role r0) r0) R (note_observed a w c role i s)
  note_observed-Holds role (err m) s k may = quota-Within role r0 s.row k
  note_observed-Holds role (ok i) s k may =
      if-Holds (Noted (quota role r0) r0) R (is_expected c role i) _ _ s
        (λ e. note_observation-Within r0 s.row role i k may) (λ e. quota-Within role r0 s.row k)

  note_record-Holds :
      (role : Role) (r : Option Fields) (s : State)
      → Calm r0 s.row
      → MayInvoke role r0.evidence
      → Holds (Noted (quota role r0) r0) R (note_record a w c role r s)
  unfolding note_record
  note_record-Holds role none s k may = quota-Within role r0 s.row k
  note_record-Holds role (some r) s k may =
      if-Holds (Noted (quota role r0) r0) R (w.observing_ended s.tick) _ _
        (record s { tick = suc s.tick }) (λ e. quota-Within role r0 s.row k)
        (λ e. note_observed-Holds role (observe a r) _ k may)

  after_publication-Holds :
      (q : ℕ) (answer : Answer) (written : Bool) (s : State)
      → Within q r0 s.row
      → Holds (Noted q r0) R (after_publication a w c answer written s)
  after_publication-Holds q answer false s k = k
  after_publication-Holds q answer true s k =
      if-Holds (Noted q r0) R (not (answer.exit_code == 0) || w.ended s.tick || s.row.uncertain) _ _
        (record s { tick = suc s.tick }) (λ e. k) (λ e. k)

  conclude_invocation-Holds :
      (q : ℕ) (role : Role) (answer : Answer) (noted : Bool) (s : State)
      → Within q r0 s.row
      → Holds (Noted q r0) R (conclude_invocation a w c role answer noted s)
  conclude_invocation-Holds q role answer false s k =
      bind-Holds (Noted q r0) (Noted q r0) R _ _ (reconcile-Holds q none s k) (λ u t j. j)
  conclude_invocation-Holds q role answer true s k =
      if-Holds (Noted q r0) R answer.failed _ _ s
        (λ e.
          bind-Holds (Noted q r0) (Noted q r0) R _ _ (reconcile-Holds q answer.ownership s k)
            (λ u t j. j))
        (λ e.
          if-Holds (Noted q r0) R (has_value answer.ledger_record) _ _ s
            (λ f.
              bind-Holds (Noted q r0) (Noted q r0) R _ (after_publication a w c answer)
                (save-Holds R w (Within q r0) s k) (after_publication-Holds q answer))
            (λ f. k))

  run_invocation-Holds :
      (role : Role) (text : Bytes) (written : Bool) (s : State)
      → Calm r0 s.row
      → MayInvoke role r0.evidence
      → Holds (Noted (quota role r0) r0) R (run_invocation a w c role text written s)
  run_invocation-Holds role text false s k may = quota-Within role r0 s.row k
  run_invocation-Holds role text true s k may =
      let answer : Answer = w.invoke s.tick role text in
      bind-Holds (Noted (quota role r0) r0) (Noted (quota role r0) r0) R _
        (conclude_invocation a w c role answer)
        (note_record-Holds role answer.ledger_record (record s { tick = suc s.tick }) k may)
        (conclude_invocation-Holds (quota role r0) role answer)

  pub invoke-Holds :
      (role : Role) (text : Bytes) (s : State)
      → Calm r0 s.row
      → MayInvoke role r0.evidence
      → Holds (Noted (quota role r0) r0) R (invoke a w c role text s)
  unfolding invoke
  invoke-Holds role text s k may =
      if-Holds (Noted (quota role r0) r0) R (w.ended s.tick || w.out_of_time (suc s.tick)) _ _
        (record { tick = suc (suc s.tick); row = s.row; failed = s.failed })
        (λ e. quota-Within role r0 s.row k)
        (λ e.
          bind-Holds (Continues r0) (Noted (quota role r0) r0) R _ (run_invocation a w c role text)
            (save-Holds R w (Calm r0) _ k) (λ b t j. run_invocation-Holds role text b t j may))
