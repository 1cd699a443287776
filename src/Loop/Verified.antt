-- ===== src/Loop/Verified.antt =====
-- What a passed checkStage guarantees of the row.
use software_factory_templat.Base.{
  zero, suc, Bool, true, false, not, ◌&&◌, ◌||◌, ◌==◌, Option, none, some, List, [], ◌∷◌, ◌++◌,
  Bytes, codes, bytes_eq, ◌≡◌, refl, ◌∙◌,
}
use software_factory_templat.Budget.Json.{Fields}
use software_factory_templat.Budget.Numbers.{Arithmetic}
use software_factory_templat.Budget.History.{has_active}
use software_factory_templat.Loop.State.{
  Fingerprint, handoff, interrupted, Evidence, checked, Row, State, Execution, World, Settings,
}
use software_factory_templat.Loop.Turn.{End}
use software_factory_templat.Loop.Checkpoint.{append_evidence}
use software_factory_templat.Loop.Check.{
  CheckResult, is_idle, is_certain, own_process, spawn, with_identity, conclude_check, recheck,
  interrupt, record_check, executed, run_check, after_save, begin_check, owned, check_stage,
}
use software_factory_templat.Loop.Holds.{Holds, if-Holds, bind-Holds, Holds-mono}
use software_factory_templat.Loop.Protocol.{Checked, Steps-Extends}
use software_factory_templat.Loop.Calm.{
  Calm, Quiet, Calm-refl, Calm-trans, Calm-append_evidence, save-Holds, finish_run-Quiet,
}
use software_factory_templat.Loop.Source.{Fresh, fresh-Holds}

abbrev pub Verified : Row → CheckResult → State → Type 0
Verified r0 k s = Calm r0 s.row × (k.passed ≡ true → Checked s.row.snapshot s.row.evidence)

pub spawn-Holds :
    (R : End → State → Type 0) (w : World) (r0 : Row) (pid : Option _) (s : State)
    → Calm r0 s.row
    → Holds (λ b t. Calm r0 t.row) R (spawn w pid s)
spawn-Holds R w r0 none s c = c
spawn-Holds R w r0 (some zero) s c = c
spawn-Holds R w r0 (some (suc n)) s c = save-Holds R w (Calm r0) _ c

module _ (a : Arithmetic) (w : World) (c : Settings) where
  -- `r1` is the row with the evidence of `e`.
  module _ (r0 r1 : Row) (before : Fingerprint) (e : Execution) (es : List Evidence)
      (recorded : r1.evidence ≡ es ++ (checked e.exit_code e.outcome before ∷ []))
      (from : Calm r0 r1) where
    with_identity-Holds :
        (i : Option Bytes) (s : State)
        → Calm r1 s.row
        → s.row.snapshot ≡ before
        → Holds (Verified r0) (Quiet r0) (with_identity a w c e i s)
    with_identity-Holds none s k f = (refl, Calm-trans r0 r1 s.row from k)
    with_identity-Holds (some i) s k f = (
      Calm-trans r0 r1 s.row from k,
      λ z. rw f (es, e.exit_code, e.outcome, z, rw⁻¹ recorded (Steps-Extends k.1.3)),
    )

    conclude_check-Holds :
        (f : Option Fingerprint) (s : State)
        → Fresh r1 (some before) f s
        → Holds (Verified r0) (Quiet r0) (conclude_check a w c before e f s)
    conclude_check-Holds none s (k, f) =
        finish_run-Quiet (Verified r0) w r0 handoff _ s refl (Calm-trans r0 r1 s.row from k)
    conclude_check-Holds (some g) s (k, f) =
        if-Holds (Verified r0) (Quiet r0)
          (is_certain e
            && (bytes_eq e.outcome (codes "completed") || bytes_eq e.outcome (codes "failed")))
          _ _ s
          (λ h.
            with_identity-Holds (w.identify s.tick before.source e.exit_code e.stdout)
              (record s { tick = suc s.tick }) k (f.0 ∙ f.3))
          (λ h.
            finish_run-Quiet (Verified r0) w r0 handoff _ s refl (Calm-trans r0 r1 s.row from k))

    recheck-Holds :
        (written : Bool) (s : State)
        → Calm r1 s.row
        → Holds (Verified r0) (Quiet r0) (recheck a w c before e written s)
    recheck-Holds false s k = (refl, Calm-trans r0 r1 s.row from k)
    recheck-Holds true s k =
        bind-Holds (Fresh r1 (some before)) (Verified r0) (Quiet r0) _
          (conclude_check a w c before e)
          (Holds-mono (Fresh r1 (some before)) (Quiet r1) (Fresh r1 (some before)) (Quiet r0) _
            (fresh-Holds w r1 c.is_bounded (some before) s k) (λ f t h. h)
            (λ d t h. (h.0, Calm-trans r0 r1 t.row from h.1)))
          conclude_check-Holds

  module _ (r0 : Row) where
    interrupt-Holds :
        (s : State) → Calm r0 s.row → Holds (Verified r0) (Quiet r0) (interrupt a w c s)
    interrupt-Holds s k =
        if-Holds (Verified r0) (Quiet r0) (w.parent_ended s.tick) _ _
          (record s { tick = suc s.tick })
          (λ h.
            finish_run-Quiet (Verified r0) w r0 interrupted _ (record s { tick = suc s.tick }) refl
              k)
          (λ h.
            finish_run-Quiet (Verified r0) w r0 handoff _ (record s { tick = suc s.tick }) refl k)

    record_check-Holds :
        (before : Fingerprint) (e : Execution) (s : State)
        → Calm r0 s.row
        → Holds (Verified r0) (Quiet r0) (record_check a w c before e s)
    unfolding record_check
    record_check-Holds before e s k =
        let r1 : Row = append_evidence (checked e.exit_code e.outcome before) s.row in
        let k1 : Calm r0 r1 =
          Calm-append_evidence r0 s.row (checked e.exit_code e.outcome before) k tt refl in
        let t : State = record { tick = suc s.tick; row = r1; failed = s.failed } in
        if-Holds (Verified r0) (Quiet r0) (w.ended s.tick) _ _ t (λ h. interrupt-Holds t k1)
          (λ h.
            bind-Holds (λ b u. Calm r1 u.row) (Verified r0) (Quiet r0) _ (recheck a w c before e)
              (save-Holds (Quiet r0) w (Calm r1) t (Calm-refl r1))
              (λ b u j. recheck-Holds r0 r1 before e s.row.evidence refl k1 b u j))

    executed-Holds :
        (before : Fingerprint) (e : Execution) (s : State)
        → Calm r0 s.row
        → Holds (Verified r0) (Quiet r0) (executed a w c before e s)
    unfolding executed own_process
    executed-Holds before e s k =
        let t : State = record { tick = s.tick; row = own_process e s.row; failed = s.failed } in
        if-Holds (Verified r0) (Quiet r0) (e.failed || (e.process_pid == 0)) _ _ t
          (λ h. finish_run-Quiet (Verified r0) w r0 handoff _ t refl k)
          (λ h. record_check-Holds before e t k)

    run_check-Holds :
        (before : Fingerprint) (s : State)
        → Calm r0 s.row
        → Holds (Verified r0) (Quiet r0) (run_check a w c before s)
    run_check-Holds before s k =
        bind-Holds (λ b u. Calm r0 u.row) (Verified r0) (Quiet r0) _ _
          (spawn-Holds (Quiet r0) w r0 (w.execute s.tick).spawned (record s { tick = suc s.tick })
            k)
          (λ b u j.
            if-Holds (Verified r0) (Quiet r0) u.failed _ _ u (λ h. (refl, j))
              (λ h. executed-Holds before (w.execute s.tick) u j))

    after_save-Holds :
        (before : Fingerprint) (written : Bool) (s : State)
        → Calm r0 s.row
        → Holds (Verified r0) (Quiet r0) (after_save a w c before written s)
    after_save-Holds before true s k =
        let t : State = record { tick = suc (suc s.tick); row = s.row; failed = s.failed } in
        if-Holds (Verified r0) (Quiet r0) (w.ended s.tick || not (w.has_allowance (suc s.tick))) _ _
          t (λ h. finish_run-Quiet (Verified r0) w r0 handoff _ t refl k)
          (λ h. run_check-Holds before t k)
    after_save-Holds before false s k =
        let t : State = record { tick = suc s.tick; row = s.row; failed = s.failed } in
        if-Holds (Verified r0) (Quiet r0) (w.ended s.tick && not s.failed) _ _ t
          (λ h. finish_run-Quiet (Verified r0) w r0 handoff _ t refl k) (λ h. (refl, k))

    begin_check-Holds :
        (f : Option Fingerprint) (s : State)
        → Calm r0 s.row
        → Holds (Verified r0) (Quiet r0) (begin_check a w c f s)
    begin_check-Holds none s k = finish_run-Quiet (Verified r0) w r0 handoff _ s refl k
    begin_check-Holds (some before) s k =
        let t : State = record { tick = suc s.tick; row = s.row; failed = s.failed } in
        if-Holds (Verified r0) (Quiet r0) (w.has_allowance s.tick) _ _ t
          (λ h.
            bind-Holds (λ b u. Calm r0 u.row) (Verified r0) (Quiet r0) _ (after_save a w c before)
              (save-Holds (Quiet r0) w (Calm r0) _ k) (after_save-Holds before))
          (λ h. finish_run-Quiet (Verified r0) w r0 handoff _ t refl k)

    owned-Holds :
        (ledger : Option Fields) (s : State)
        → Calm r0 s.row
        → Holds (Verified r0) (Quiet r0) (owned a w c ledger s)
    owned-Holds none s k = finish_run-Quiet (Verified r0) w r0 handoff _ _ refl k
    owned-Holds (some history) s k =
        let t : State = record { tick = suc s.tick; row = s.row; failed = s.failed } in
        if-Holds (Verified r0) (Quiet r0) (not (w.ended s.tick) && is_idle (has_active a history)) _
          _ t
          (λ h.
            bind-Holds (Fresh r0 none) (Verified r0) (Quiet r0) _ (begin_check a w c)
              (fresh-Holds w r0 c.is_bounded none t k) (λ f u j. begin_check-Holds f u j.0))
          (λ h. finish_run-Quiet (Verified r0) w r0 handoff _ _ refl k)

    pub check_stage-Holds :
        (s : State) → Calm r0 s.row → Holds (Verified r0) (Quiet r0) (check_stage a w c s)
    unfolding check_stage
    check_stage-Holds s k =
        let t : State = record { tick = suc (suc s.tick); row = s.row; failed = s.failed } in
        if-Holds (Verified r0) (Quiet r0) (w.ended (suc s.tick)) _ _ t
          (λ h. finish_run-Quiet (Verified r0) w r0 handoff _ t refl k)
          (λ h. owned-Holds (w.ledger s.tick) t k)
