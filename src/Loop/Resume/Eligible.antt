-- ===== src/Loop/Resume/Eligible.antt =====
-- What an accepted resumption rests on: no work is open, and the one row of the run is unchanged.
use software_factory_templat.Base.{
  Bool, true, false, not, ◌&&◌, ◌||◌, Option, none, some, List, [], ◌∷◌, codes, bytes_eq,
  bytes_eq_iff, Result, ok, err, refuse, >>=-eq-ok, eq_of_ok, ap, subst, All, ◌≡◌, ◌⊎◌, arith,
  Bool-cases, inl, inr,
}
use software_factory_templat.Budget.Json.{Json, text, Fields, get, text_eq}
use software_factory_templat.Budget.Numbers.{Arithmetic}
use software_factory_templat.Budget.History.{has_active, any_row, rows}
use software_factory_templat.Budget.History.Unique.{refuse-eq-ok}
use software_factory_templat.Loop.State.{Fingerprint}
use software_factory_templat.Loop.Check.{is_idle}
use software_factory_templat.Loop.Source.{fingerprint_eq_sound}
use software_factory_templat.Loop.History.{fingerprint, is_open, validate_checkpoints, lookup}
use software_factory_templat.Loop.History.Pairs.{IsOnly, lookup-IsOnly, text_eq_sound}
use software_factory_templat.Loop.Resume.{
  ResumeRequest, valid_resume_request, same_snapshot, is_resumable, is_spent, assess_resume,
}

-- The row is what the request observed, of a manual run that ended with a check.
pub record IsUnchanged (r : ResumeRequest) (row : Fields) : Type 0 where
  pub snapshot : fingerprint (get row (codes "snapshot")) ≡ some r.snapshot
  pub policy : get row (codes "policy") ≡ text r.policy
  pub prompt : get row (codes "prompt") ≡ text r.prompt
  pub harness : get row (codes "harness") ≡ text r.harness
  pub mode : get row (codes "mode") ≡ text (codes "manual")
  pub outcome :
      (get row (codes "outcome") ≡ text (codes "manual_passed"))
      ⊎ (get row (codes "outcome") ≡ text (codes "manual_failed"))

not-false : (b : Bool) → not b ≡ false → b ≡ true
not-false b h = ground (arith, h)

same_snapshot_sound :
    (o : Option Fingerprint) (f : Fingerprint) → same_snapshot o f ≡ true → o ≡ some f
same_snapshot_sound none f h = absurd (ground (arith, h))
same_snapshot_sound (some p) f h = ap (λ x. some x) (fingerprint_eq_sound p f h)

ended_with_check :
    (v : Json)
    → (text_eq v (codes "manual_passed") || text_eq v (codes "manual_failed")) ≡ true
    → (v ≡ text (codes "manual_passed")) ⊎ (v ≡ text (codes "manual_failed"))
ended_with_check v h = elim (Bool-cases (text_eq v (codes "manual_passed"))) [
  | inl e ↦ inl (text_eq_sound v (codes "manual_passed") e)
  | inr e ↦ inr (text_eq_sound v (codes "manual_failed") (rw e at h))
]

all_true :
    (a b c d e f g : Bool)
    → (a && b && c && d && e && f && g) ≡ true
    → (a ≡ true) × (b ≡ true) × (c ≡ true) × (d ≡ true) × (e ≡ true) × (f ≡ true) × (g ≡ true)
all_true a b c d e f g h = ground (arith, h)

is_resumable-IsUnchanged :
    (r : ResumeRequest) (row : Fields) → is_resumable r row ≡ true → IsUnchanged r row
unfolding is_resumable
is_resumable-IsUnchanged r row h =
    let (harness, mode, manual, snapshot, policy, prompt, outcome) =
      all_true (text_eq (get row (codes "harness")) r.harness)
        (text_eq (get row (codes "mode")) r.mode) (bytes_eq r.mode (codes "manual"))
        (same_snapshot (fingerprint (get row (codes "snapshot"))) r.snapshot)
        (text_eq (get row (codes "policy")) r.policy) (text_eq (get row (codes "prompt")) r.prompt)
        (text_eq (get row (codes "outcome")) (codes "manual_passed")
          || text_eq (get row (codes "outcome")) (codes "manual_failed"))
        h in
    let is_manual : r.mode ≡ codes "manual" = (bytes_eq_iff r.mode (codes "manual")).0 manual in
    record {
      snapshot = same_snapshot_sound _ r.snapshot snapshot;
      policy = text_eq_sound _ r.policy policy;
      prompt = text_eq_sound _ r.prompt prompt;
      harness = text_eq_sound _ r.harness harness;
      mode = text_eq_sound _ (codes "manual") (rw is_manual at mode);
      outcome = ended_with_check _ outcome;
    }

is_idle-ok : (answer : Result Bool) → is_idle answer ≡ true → answer ≡ ok false
is_idle-ok (ok b) h = ap (λ x. ok x) (ground (arith, h))
is_idle-ok (err m) h = absurd (ground (arith, h))

pub none_open : (rs : List Fields) → any_row is_open rs ≡ false → All (λ q. is_open q ≡ false) rs
none_open [] h = tt
none_open (q ∷ rs) h = elim (Bool-cases (is_open q)) [
  | inl e ↦ absurd (ground (arith, e, h))
  | inr e ↦ (e, none_open rs (rw e at h))
]

module _ (a : Arithmetic) where
  -- A resumption is accepted only if the budget ledger has no active run, no row of the
  -- checkpoints is active or uncertain, the accepted row is valid and the only one of its session
  -- and task, the elapsed seconds are below the requested time, and the row has the snapshot, the
  -- policy, the prompt and the harness of the request, is of a manual run, and ended with
  -- manual_passed or manual_failed.
  pub assess_resume-IsUnchanged :
      (h b : Fields) (r : ResumeRequest) (row : Fields)
      → assess_resume a h b r ≡ ok row
      → (has_active a b ≡ ok false)
        × All (λ q. is_open q ≡ false) (rows h)
        × IsOnly a r.session r.task row (rows h)
        × IsUnchanged r row
        × (is_spent a r.timeout (get row (codes "elapsed_seconds")) ≡ false)
  unfolding assess_resume
  assess_resume-IsUnchanged h b r row e =
      let (u1, k1, e1) = >>=-eq-ok (refuse (not (valid_resume_request r)) _) _ e in
      let (u2, k2, e2) = >>=-eq-ok (validate_checkpoints a h) _ e1 in
      let (u3, k3, e3) = >>=-eq-ok (refuse (not (is_idle (has_active a b))) _) _ e2 in
      let (u4, k4, e4) = >>=-eq-ok (refuse (any_row is_open (rows h)) _) _ e3 in
      let (q, k5, e5) = >>=-eq-ok (lookup a h r.session r.task) _ e4 in
      let (u6, k6, e6) = >>=-eq-ok (refuse (not (is_resumable r q)) _) _ e5 in
      let (u7, k7, e7) =
        >>=-eq-ok (refuse (is_spent a r.timeout (get q (codes "elapsed_seconds"))) _) _ e6 in
      subst
        (λ t.
          (has_active a b ≡ ok false)
          × All (λ q. is_open q ≡ false) (rows h)
          × IsOnly a r.session r.task t (rows h)
          × IsUnchanged r t
          × (is_spent a r.timeout (get t (codes "elapsed_seconds")) ≡ false))
        (eq_of_ok e7)
        (
          is_idle-ok (has_active a b) (not-false _ (refuse-eq-ok _ _ k3)),
          none_open (rows h) (refuse-eq-ok _ _ k4),
          lookup-IsOnly a h r.session r.task q k5,
          is_resumable-IsUnchanged r q (not-false _ (refuse-eq-ok _ _ k6)),
          refuse-eq-ok _ _ k7,
        )
