-- ===== src/Loop/Approval.antt =====
-- What holds where a run has ended, and why an approval rests on a check and a review of one snapshot.
use software_factory_templat.Base.{
  ℕ, true, List, [], ◌∷◌, ◌++◌, Bytes, ◌≡◌, refl, ◌∙◌, ◌⊎◌, inl, inr,
}
use software_factory_templat.Loop.State.{
  completed, RunOutcome, interrupted, approved, approve, Evidence, reviewed, Row, State, World,
}
use software_factory_templat.Loop.Turn.{End, finished, errored}
use software_factory_templat.Loop.Checkpoint.{exit_status, finished_row, finish_run}
use software_factory_templat.Loop.Protocol.{implementer_entries, Checked, Steps, Steps-trans}
use software_factory_templat.Loop.Holds.{Holds, is_success, Holds-mono}
use software_factory_templat.Loop.Calm.{
  Spent, Spent-trans, Steady, Calm, Quiet, finish_run-Holds, finish_run-Quiet, Ending-Quiet,
}

-- The last evidence is an approval without findings of the row's snapshot, and before it stands a
-- check of that snapshot that exited with 0.
abbrev pub IsApproved : Row → Type 0
IsApproved r =
    (xs : List Evidence) × (r.evidence ≡ xs ++ (reviewed approve 0 r.snapshot ∷ []))
    × Checked r.snapshot xs

abbrev pub Closed : Row → End → Row → Type 0
Closed r0 e r =
    (r.baseline ≡ r0.baseline)
    × (r.policy ≡ r0.policy)
    × (r.prompt ≡ r0.prompt)
    × Steps r0.evidence r.evidence
    × (is_success e ≡ true → r.status ≡ completed)
    × (r.status ≡ completed → (r0.status ≡ completed) ⊎ IsApproved r)

abbrev pub Ended : ℕ → Row → End → Row → Type 0
Ended quota r0 e r = Spent quota r0 r × Closed r0 e r

abbrev pub SettledRow : Row → End → Row → Type 0
SettledRow r0 e r = Ended (implementer_entries r0.evidence) r0 e r

abbrev pub Settled : Row → End → State → Type 0
Settled r0 e s = SettledRow r0 e s.row

pub Steady-Closed : (p q : Row) (e : End) (r : Row) → Steady p q → Closed q e r → Closed p e r
Steady-Closed p q e r (b, po, pr, ex, st) (b1, po1, pr1, ex1, su, ap1) =
    (b1 ∙ b, po1 ∙ po, pr1 ∙ pr, Steps-trans ex ex1, su, λ h. earlier (ap1 h))
  where
    earlier : (q.status ≡ completed) ⊎ IsApproved r → (p.status ≡ completed) ⊎ IsApproved r
    earlier (inl x) = inl (st x)
    earlier (inr x) = inr x

pub Calm-Settled : (p q : Row) (e : End) (r : Row) → Calm p q → SettledRow q e r → SettledRow p e r
Calm-Settled p q e r (n, s) (m, k) =
    (Spent-trans (implementer_entries p.evidence) p q r n m, Steady-Closed p q e r s k)

pub Quiet-Settled : (r0 : Row) (e : End) (s : State) → Quiet r0 e s → Settled r0 e s
Quiet-Settled r0 e s (q, (n, (b, po, pr, ex, st))) = (n, (b, po, pr, ex, λ h. cc, λ h. inl (st h)))

-- Every outcome that exits with 2 leaves a settled run.
pub finish_run-Settled :
    {A : Type 0} (Q : A → State → Type 0) (w : World) (r0 : Row) (o : RunOutcome) (reason : Bytes)
    (s : State)
    → exit_status o ≡ 2
    → Calm r0 s.row
    → Holds Q (Settled r0) (finish_run w o reason s)
finish_run-Settled Q w r0 o reason s h k =
    Holds-mono Q (Quiet r0) Q (Settled r0) _ (finish_run-Quiet Q w r0 o reason s h k) (λ a t q. q)
      (Quiet-Settled r0)

pub approved-Settled :
    (r0 : Row) (e : End) (reason : Bytes) (r : Row)
    → Calm r0 r
    → IsApproved r
    → SettledRow r0 e (finished_row approved reason r)
unfolding finished_row
approved-Settled r0 e reason r (n, (b, po, pr, ex, st)) v =
    (n, (b, po, pr, ex, λ h. refl, λ h. inr v))

pub finish_approved-Settled :
    {A : Type 0} (Q : A → State → Type 0) (w : World) (r0 : Row) (reason : Bytes) (s : State)
    → Calm r0 s.row
    → IsApproved s.row
    → Holds Q (Settled r0) (finish_run w approved reason s)
finish_approved-Settled Q w r0 reason s k v =
    finish_run-Holds Q (SettledRow r0) w approved reason s (Quiet-Settled r0 errored s (refl, k))
      (λ text.
        let q = Ending-Quiet r0 interrupted text s.row refl k in
        let t : State = record s { row = finished_row interrupted text s.row } in
        (Quiet-Settled r0 errored t q.0, Quiet-Settled r0 (finished 2) t q.1))
      (
        approved-Settled r0 errored reason s.row k v,
        approved-Settled r0 (finished 0) reason s.row k v,
      )
