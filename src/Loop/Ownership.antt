-- ===== src/Loop/Ownership.antt =====
-- What the row says of processes and budget runs that may still be going on.
use software_factory_templat.Base.{
  ℕ, ◌<◌, true, false, length, ltb, Option, none, some, List, [], ◌∷◌, ◌++◌, All, Bytes, bytes_eq,
  bytes_eq_refl, ◌≡◌, refl, arith, ltb-false, Bool-cases, Option-cases, inl, inr,
}
use software_factory_templat.Budget.Numbers.{Integer}
use software_factory_templat.Budget.Observation.{Invocation}
use software_factory_templat.Loop.State.{Row, Execution}
use software_factory_templat.Loop.Check.{is_certain, owned_process, own_process}
use software_factory_templat.Loop.Invoke.{
  is_member, add_budget_run, note_process, reconcile_row, reconcile_rows,
}

-- If the row is not uncertain after the execution of a check, it names no process, ownership is
-- confirmed, and any process that started has a confirmed exit with an exit code.
pub own_process-uncertain :
    (e : Execution) (r : Row)
    → (own_process e r).uncertain ≡ false
    → ((own_process e r).process_pid ≡ none)
      × (e.ownership_unconfirmed ≡ false)
      × ((0 < e.process_pid) → is_certain e ≡ true)
unfolding own_process owned_process
own_process-uncertain e r sure = elim (Bool-cases (is_certain e)) [
  | inl h ↦ rw h (refl, ground (arith, h, sure), λ k. refl)
  | inr h ↦ elim (Bool-cases (ltb 0 e.process_pid)) [
    | inl k ↦ absurd (ground (arith, h, k, sure))
    | inr k ↦ elim (Option-cases r.process_pid) [
      | inl z ↦ rw h (
          rw k (
            z,
            ground (arith, h, k, sure),
            λ l. absurd (omega (arith, ltb-false 0 e.process_pid k, l)),
          ))
      | inr (p, z) ↦ absurd (ground (arith, h, k, z, sure))
    ]
  ]
]

is_member-append :
    (x y : Bytes) (xs : List Bytes) → is_member x xs ≡ true → is_member x (xs ++ (y ∷ [])) ≡ true
is_member-append x y [] h = ground (arith, h)
is_member-append x y (z ∷ xs) h = elim (Bool-cases (bytes_eq z x)) [
  | inl e ↦ rw e refl
  | inr e ↦ rw e (is_member-append x y xs (ground (arith, e, h)))
]

is_member-last : (x : Bytes) (xs : List Bytes) → is_member x (xs ++ (x ∷ [])) ≡ true
is_member-last x [] = rw (bytes_eq_refl x) refl
is_member-last x (z ∷ xs) = ground (arith, is_member-last x xs)

-- Every budget run of `r` is one of `q`.
abbrev pub Keeps : Row → Row → Type 0
Keeps r q = (id : Bytes) → is_member id r.budget_runs ≡ true → is_member id q.budget_runs ≡ true

add_budget_run-Keeps : (id : Bytes) (r : Row) → Keeps r (add_budget_run id r)
unfolding add_budget_run
add_budget_run-Keeps id r x h = elim (Bool-cases (is_member id r.budget_runs)) [
  | inl e ↦ rw e h
  | inr e ↦ rw e (is_member-append x id r.budget_runs h)
]

is_member-add_budget_run :
    (id : Bytes) (r : Row) → is_member id (add_budget_run id r).budget_runs ≡ true
unfolding add_budget_run
is_member-add_budget_run id r = elim (Bool-cases (is_member id r.budget_runs)) [
  | inl e ↦ rw e e
  | inr e ↦ rw e (is_member-last id r.budget_runs)
]

note_process-lem :
    (p : Option Integer) (r : Row)
    → ((note_process p r).budget_runs ≡ r.budget_runs)
      × ((note_process p r).uncertain ≡ r.uncertain)
note_process-lem none r = (refl, refl)
note_process-lem (some p) r = (refl, refl)

reconcile_row-Keeps : (o : Option ℕ) (i : Invocation) (r : Row) → Keeps r (reconcile_row o i r)
unfolding reconcile_row
reconcile_row-Keeps none i r x h =
    let added : Row = add_budget_run i.id (record r { uncertain = true }) in
    rw (note_process-lem i.process_pid added).0
      (add_budget_run-Keeps i.id (record r { uncertain = true }) x h)
reconcile_row-Keeps (some n) i r x h = add_budget_run-Keeps i.id (record r { uncertain = true }) x h

-- A reconciled invocation is noted and leaves the row uncertain.
abbrev pub IsNoted : Row → Invocation → Type 0
IsNoted r i = is_member i.id r.budget_runs ≡ true

reconcile_row-IsNoted : (o : Option ℕ) (i : Invocation) (r : Row) → IsNoted (reconcile_row o i r) i
unfolding reconcile_row
reconcile_row-IsNoted none i r =
    let added : Row = add_budget_run i.id (record r { uncertain = true }) in
    rw (note_process-lem i.process_pid added).0
      (is_member-add_budget_run i.id (record r { uncertain = true }))
reconcile_row-IsNoted (some n) i r = is_member-add_budget_run i.id (record r { uncertain = true })

reconcile_rows-Keeps :
    (o : Option ℕ) (is : List Invocation) (r : Row) → Keeps r (reconcile_rows o is r)
unfolding reconcile_rows
reconcile_rows-Keeps o [] r x h = h
reconcile_rows-Keeps o (i ∷ is) r x h =
    reconcile_rows-Keeps o is (reconcile_row o i r) x (reconcile_row-Keeps o i r x h)

add_budget_run-uncertain : (id : Bytes) (r : Row) → (add_budget_run id r).uncertain ≡ r.uncertain
unfolding add_budget_run
add_budget_run-uncertain id r = elim (Bool-cases (is_member id r.budget_runs)) [
  | inl e ↦ rw e refl
  | inr e ↦ rw e refl
]

reconcile_row-uncertain :
    (o : Option ℕ) (i : Invocation) (r : Row) → (reconcile_row o i r).uncertain ≡ true
unfolding reconcile_row
reconcile_row-uncertain none i r =
    rw (note_process-lem i.process_pid (add_budget_run i.id (record r { uncertain = true }))).1
      (add_budget_run-uncertain i.id (record r { uncertain = true }))
reconcile_row-uncertain (some n) i r = add_budget_run-uncertain i.id (record r { uncertain = true })

reconcile_rows_uncertain :
    (o : Option ℕ) (is : List Invocation) (r : Row)
    → r.uncertain ≡ true
    → (reconcile_rows o is r).uncertain ≡ true
unfolding reconcile_rows
reconcile_rows_uncertain o [] r h = h
reconcile_rows_uncertain o (i ∷ is) r h =
    reconcile_rows_uncertain o is (reconcile_row o i r) (reconcile_row-uncertain o i r)

All-IsNoted :
    (o : Option ℕ) (is : List Invocation) (r : Row) → All (IsNoted (reconcile_rows o is r)) is
unfolding reconcile_rows
All-IsNoted o [] r = tt
All-IsNoted o (i ∷ is) r = (
  reconcile_rows-Keeps o is (reconcile_row o i r) i.id (reconcile_row-IsNoted o i r),
  All-IsNoted o is (reconcile_row o i r),
)

is_uncertain :
    (o : Option ℕ) (is : List Invocation) (r : Row)
    → 0 < length is
    → (reconcile_rows o is r).uncertain ≡ true
unfolding reconcile_rows
is_uncertain o [] r h = absurd (omega (arith, h))
is_uncertain o (i ∷ is) r h =
    reconcile_rows_uncertain o is (reconcile_row o i r) (reconcile_row-uncertain o i r)

-- Reconciling the active invocations of the ledger notes each of them among the budget runs, keeps
-- those that were noted, and leaves the row uncertain if there is any.
pub reconcile_rows-IsNoted :
    (o : Option ℕ) (is : List Invocation) (r : Row)
    → All (IsNoted (reconcile_rows o is r)) is
      × Keeps r (reconcile_rows o is r)
      × ((0 < length is) → (reconcile_rows o is r).uncertain ≡ true)
reconcile_rows-IsNoted o is r =
    (All-IsNoted o is r, reconcile_rows-Keeps o is r, is_uncertain o is r)
