-- ===== src/Budget/Finalize/Retained.antt =====
-- A run is completed only when its exit is known; otherwise its reservation is kept.
use mathlib.Core.Path.{subst}
use software_factory_templat.Base.{
  ℕ, Bool, true, false, not, ◌&&◌, ◌||◌, Option, none, some, Bytes, codes, bytes_eq, bytes_eq_iff,
  if◌then◌else◌, Result, ok, refuse, >>=-eq-ok, eq_of_ok, ◌≡◌, refl, sym, ap, ◌∙◌, ◌⊎◌, arith,
}
use software_factory_templat.Base.Assoc.{is_some}
use software_factory_templat.Budget.Json.{Json, text, array, Items, Fields, get, put, get-put}
use software_factory_templat.Budget.Numbers.{Arithmetic}
use software_factory_templat.Budget.Domain.{valid_id}
use software_factory_templat.Budget.Plan.{Floats, BudgetConfig, validate_config}
use software_factory_templat.Budget.History.{is_active, validate_history}
use software_factory_templat.Budget.History.Unique.{refuse-eq-ok}
use software_factory_templat.Budget.Ledger.{owner_record, reconcile_pid, write, write_row}
use software_factory_templat.Budget.Finalize.{
  Completion, append_text, retention_warning, without_exit, is_uncertain, final_row, retained,
  ended, with_metadata, with_pid, cost_warning, warnings_of, validate_completion, finalize,
}

ended-is_active : (now : Bytes) (ws : Items) (m : Fields) → is_active (ended now ws m) ≡ false
unfolding ended
ended-is_active now ws m =
    let one = put m (codes "status") (text (codes "completed")) in
    let two = put one (codes "ended_at") (text now) in
    rw
      (
        get-put two (codes "warnings") (codes "status") (array ws),
        get-put one (codes "ended_at") (codes "status") (text now),
        get-put m (codes "status") (codes "status") (text (codes "completed")),
      )
      refl

kept-is_active :
    (v : Json) (m : Fields)
    → is_active (put (put m (codes "status") (text (codes "active"))) (codes "warnings") v) ≡ true
kept-is_active v m =
    rw
      (
        get-put (put m (codes "status") (text (codes "active"))) (codes "warnings") (codes "status")
            v,
        get-put m (codes "status") (codes "status") (text (codes "active")),
      )
      refl

retained-is_active : (c : Completion) (ws : Items) (m : Fields) → is_active (retained c ws m) ≡ true
unfolding retained
retained-is_active c ws m =
    kept-is_active (array (append_text ws retention_warning)) (without_exit c m)

branch-is_active :
    (b : Bool) (c : Completion) (now : Bytes) (ws : Items) (m : Fields)
    → is_active (if b then retained c ws m else ended now ws m) ≡ b
branch-is_active true c now ws m = retained-is_active c ws m
branch-is_active false c now ws m = ended-is_active now ws m

final_row-is_active :
    (now : Bytes) (c : Completion) (pid : Option ℕ) (r : Fields)
    → is_active (final_row now c pid r) ≡ is_uncertain c pid
unfolding final_row
final_row-is_active now c pid r =
    let uncertain = is_uncertain c pid in
    let ws = cost_warning c uncertain (warnings_of (get r (codes "warnings"))) in
    let known = with_metadata c uncertain (with_pid pid r) in
    branch-is_active uncertain c now ws known

-- The exit of the process is known, or none was started and the launch has failed.
abbrev pub IsOver : Completion → Option ℕ → Type 0
IsOver c pid =
    (c.ownership_unconfirmed ≡ false)
    × (((is_some pid ≡ true) × (c.exit_confirmed ≡ true) × (is_some c.exit_code ≡ true))
        ⊎ ((is_some pid ≡ false) × (c.outcome ≡ codes "launch_error")))

over :
    (c : Completion) (pid : Option ℕ)
    → (not (is_some pid) && (is_uncertain c pid || not (bytes_eq c.outcome (codes "launch_error"))))
      ≡ false
    → is_uncertain c pid ≡ false
    → IsOver c pid
unfolding is_uncertain
over c none h k = ground (arith, h, k, bytes_eq_iff c.outcome (codes "launch_error"))
over c (some p) h k = ground (arith, k)

module _ (a : Arithmetic) (utf8 json : Bytes → Bool) (encoded_length : Fields → ℕ)
    (publish : Fields → Result (Unit {0})) where
  write-valid :
      (h : Fields) {u : Unit {0}}
      → write a encoded_length publish h ≡ ok u
      → validate_history a h ≡ ok tt
  unfolding write
  write-valid h e = (>>=-eq-ok (validate_history a h) _ e).1

  -- A finalization that succeeds, for a configuration without a cost threshold, leaves a ledger
  -- that passes validation; and for the row it finds and the process that the row and the
  -- completion agree on, the row it returns is active exactly when the exit is uncertain, and if
  -- it is not active then its ownership is confirmed and either a process was started whose exit
  -- is confirmed with an exit code, or none was started and the outcome is launch_error.
  pub finalize-IsOver :
      {F S : Type 0} (fl : Floats F S) (config : BudgetConfig F) (own : ℕ) (now : Bytes)
      (h : Fields) (id : Bytes) (c : Completion) (row later : Fields)
      → finalize a utf8 json fl encoded_length publish config own now h id c ≡ ok (row, later)
      → (validate_history a later ≡ ok tt)
        × (r : Fields) × (pid : Option ℕ) × (owner_record a own h id ≡ ok r)
        × (reconcile_pid a r c.process_pid ≡ ok pid)
        × (is_active row ≡ is_uncertain c pid)
        × (is_active row ≡ false → IsOver c pid)
  unfolding finalize
  finalize-IsOver fl config own now h id c row later e =
      let (u0, k0, e0) = >>=-eq-ok (refuse (not (valid_id id)) _) _ e in
      let (v0, j0, d0) =
        >>=-eq-ok (validate_config fl a (record config { estimated_usd = none })) _ e0 in
      let (u1, k1, e1) = >>=-eq-ok (validate_completion a utf8 json c) _ d0 in
      let (u2, k2, e2) = >>=-eq-ok (validate_history a h) _ e1 in
      let (r, found, e3) = >>=-eq-ok (owner_record a own h id) _ e2 in
      let (pid, agreed, e4) = >>=-eq-ok (reconcile_pid a r c.process_pid) _ e3 in
      let (u5, k5, e5) =
        >>=-eq-ok (refuse (not (is_some pid) && (is_some c.exit_code || c.exit_confirmed)) _) _
          e4 in
      let (u6, k6, e6) =
        >>=-eq-ok
          (refuse
            (not (is_some pid)
              && (is_uncertain c pid || not (bytes_eq c.outcome (codes "launch_error"))))
            _)
          _ e5 in
      let new = final_row now c pid r in
      let (u7, k7, e7) = >>=-eq-ok (write a encoded_length publish (write_row id new h)) _ e6 in
      let made = eq_of_ok e7 in
      let active : is_active row ≡ is_uncertain c pid =
        ap (λ (x : Fields × Fields). is_active x.0) (sym made) ∙ final_row-is_active now c pid r in
      (
        subst (λ (x : Fields). validate_history a x ≡ ok tt)
            (ap (λ (x : Fields × Fields). x.1) made) (write-valid (write_row id new h) k7),
        r,
        pid,
        found,
        agreed,
        active,
        λ n. over c pid (refuse-eq-ok _ _ k6) (sym active ∙ n),
      )
