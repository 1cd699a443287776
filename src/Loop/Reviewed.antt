-- ===== src/Loop/Reviewed.antt =====
-- The review of a round: it ends settled, or the row is calm and the next round repairs.
use software_factory_templat.Base.{
  ℕ, suc, Bool, true, false, ◌||◌, Option, none, some, ◌++◌, Bytes, length, ◌≡◌, refl, ap, ◌∙◌,
  arith, ==_iff,
}
use software_factory_templat.Budget.Numbers.{Arithmetic}
use software_factory_templat.Loop.State.{
  Fingerprint, handoff, Role, reviewer, Verdict, approve, repair, Evidence, reviewed, Row, State,
  World, Settings,
}
use software_factory_templat.Loop.Turn.{errored}
use software_factory_templat.Loop.Checkpoint.{append_evidence}
use software_factory_templat.Loop.Invoke.{Reply, replied, blocked, unanswered}
use software_factory_templat.Loop.Runes.{Unicode}
use software_factory_templat.Loop.Verdict.{Review, agrees}
use software_factory_templat.Loop.Bounded.{
  Repair, invocation_failed, with_encoded, judge, after_evidence, with_review, with_response,
  after_reply, review_round, review_instructions,
}
use software_factory_templat.Loop.Protocol.{Checked, Checked-Extends, Steps-Extends}
use software_factory_templat.Loop.Holds.{Holds, if-Holds, bind-Holds, Holds-mono}
use software_factory_templat.Loop.Calm.{Calm, Quiet, Calm-refl, Calm-append_evidence, save-Holds}
use software_factory_templat.Loop.Source.{Fresh, fresh-Holds}
use software_factory_templat.Loop.Observed.{Continues, invoke-Holds}
use software_factory_templat.Loop.Contract.{Parsed, parse_verdict-Holds}
use software_factory_templat.Loop.Approval.{
  IsApproved, Settled, Quiet-Settled, finish_run-Settled, finish_approved-Settled,
}

module _ (u : Unicode) (a : Arithmetic) (w : World) (c : Settings) (r0 : Row) where
  pub invocation_failed-Holds :
      (role : Role) (is_blocked : Bool) (s : State)
      → Calm r0 s.row
      → Holds (Continues r0) (Settled r0) (invocation_failed u a w c role is_blocked s)
  invocation_failed-Holds role is_blocked s k =
      if-Holds (Continues r0) (Settled r0) s.failed _ _ s
        (λ e. Quiet-Settled r0 errored s (refl, k))
        (λ e. finish_run-Settled (Continues r0) w r0 handoff _ s refl k)

  -- The row after the review's evidence.
  abbrev Recorded : Verdict → Row → Type 0
  Recorded v r = Calm r0 r × (v ≡ approve → IsApproved r)

  with_encoded-Holds :
      (p : Repair) (encoded : Option Bytes) (s : State)
      → Calm r0 s.row
      → Holds (Continues r0) (Settled r0) (with_encoded u a w c p encoded s)
  with_encoded-Holds p none s k = finish_run-Settled (Continues r0) w r0 handoff _ s refl k
  with_encoded-Holds p (some encoded) s k = k

  judge-Holds :
      (p : Repair) (v : Review) (verdict : Verdict) (s : State)
      → Recorded verdict s.row
      → Holds (Continues r0) (Settled r0) (judge u a w c p v verdict s)
  judge-Holds p v approve s (k, h) = finish_approved-Settled (Continues r0) w r0 _ s k (h refl)
  judge-Holds p v repair s (k, h) = with_encoded-Holds p (w.encode s.tick v.findings) _ k

  after_evidence-Holds :
      (p : Repair) (v : Review) (written : Bool) (s : State)
      → Recorded v.verdict s.row
      → Holds (Continues r0) (Settled r0) (after_evidence u a w c p v written s)
  after_evidence-Holds p v false s (k, h) = Quiet-Settled r0 errored s (refl, k)
  after_evidence-Holds p v true s (k, h) =
      let t : State = record { tick = suc (suc s.tick); row = s.row; failed = s.failed } in
      if-Holds (Continues r0) (Settled r0) (w.ended s.tick || w.out_of_time (suc s.tick)) _ _ t
        (λ e. finish_run-Settled (Continues r0) w r0 handoff _ t refl k)
        (λ e. judge-Holds p v v.verdict t (k, h))

  record_review-IsApproved :
      (r : Row) (snapshot : Fingerprint) (v : Verdict) (n : ℕ)
      → r.snapshot ≡ snapshot
      → Checked snapshot r.evidence
      → agrees v n ≡ true
      → v ≡ approve
      → IsApproved (append_evidence (reviewed v n snapshot) r)
  record_review-IsApproved r snapshot approve n same checked agreed is_approve =
      let no_findings : n ≡ 0 = ground (arith, agreed, ==_iff n 0) in
      (r.evidence, rw same (rw no_findings refl), rw same checked)
  record_review-IsApproved r snapshot repair n same checked agreed is_approve = cc

  with_review-Holds :
      (p : Repair) (v : Option Review) (snapshot : Fingerprint) (r : Row) (s : State)
      → Calm r0 r
      → r.snapshot ≡ snapshot
      → Checked snapshot r.evidence
      → Parsed u w r v s
      → Holds (Continues r0) (Settled r0) (with_review u a w c p snapshot v s)
  unfolding with_review
  with_review-Holds p none snapshot r s k same checked parsed =
      finish_run-Settled (Continues r0) w r0 handoff _ s refl (rw parsed k)
  with_review-Holds p (some v) snapshot r s k same checked (row, contract) =
      let e : Evidence = reviewed v.verdict (length v.findings) snapshot in
      let k1 : Calm r0 s.row = rw row k in
      let checked1 : Checked snapshot s.row.evidence = rw row checked in
      bind-Holds (λ b t. Recorded v.verdict t.row) (Continues r0) (Settled r0) _
        (after_evidence u a w c p v)
        (save-Holds (Settled r0) w (Recorded v.verdict) (record s { row = append_evidence e s.row })
          (
            Calm-append_evidence r0 s.row e k1 (checked1, contract.0) refl,
            record_review-IsApproved s.row snapshot v.verdict (length v.findings)
                (ap (λ q. q.snapshot) row ∙ same) checked1 contract.0,
          ))
        (after_evidence-Holds p v)

  with_response-Holds :
      (p : Repair) (snapshot : Fingerprint) (response : Bytes) (f : Option Fingerprint) (s : State)
      → Checked snapshot s.row.evidence
      → Fresh r0 (some snapshot) f s
      → Holds (Continues r0) (Settled r0) (with_response u a w c p snapshot response f s)
  with_response-Holds p snapshot response none s checked (k, f) =
      finish_run-Settled (Continues r0) w r0 handoff _ s refl k
  with_response-Holds p snapshot response (some g) s checked (k, f) =
      bind-Holds (Parsed u w s.row) (Continues r0) (Settled r0) _ (with_review u a w c p snapshot)
        (parse_verdict-Holds u w s.row (Settled r0) response s refl)
        (λ v t h. with_review-Holds p v snapshot s.row t k (f.0 ∙ f.3) checked h)

module _ (u : Unicode) (a : Arithmetic) (w : World) (c : Settings) where
  after_reply-Holds :
      (p : Repair) (r : Row) (reply : Reply) (s : State)
      → Checked r.snapshot r.evidence
      → Calm r s.row
      → Holds (Continues r) (Settled r) (after_reply u a w c p r.snapshot reply s)
  after_reply-Holds p r blocked s checked k = invocation_failed-Holds u a w c r reviewer true s k
  after_reply-Holds p r unanswered s checked k =
      invocation_failed-Holds u a w c r reviewer false s k
  after_reply-Holds p r (replied response) s checked k =
      bind-Holds (Fresh r (some r.snapshot)) (Continues r) (Settled r) _
        (with_response u a w c p r.snapshot response)
        (Holds-mono (Fresh r (some r.snapshot)) (Quiet r) (Fresh r (some r.snapshot)) (Settled r) _
          (fresh-Holds w r c.is_bounded (some r.snapshot) s k) (λ f t h. h) (Quiet-Settled r))
        (λ f t h.
          with_response-Holds u a w c r p r.snapshot response f t
            (Checked-Extends r.snapshot r.evidence t.row.evidence checked (Steps-Extends h.0.1.3))
            h)

  -- After a passed check, the review ends settled or leaves the row calm.
  pub review_round-Settled :
      (p : Repair) (s : State)
      → Checked s.row.snapshot s.row.evidence
      → Holds (Continues s.row) (Settled s.row) (review_round u a w c p s)
  unfolding review_round
  review_round-Settled p s checked =
      bind-Holds (Continues s.row) (Continues s.row) (Settled s.row) _
        (after_reply u a w c p s.row.snapshot)
        (invoke-Holds a w c s.row (Settled s.row) reviewer (c.prompt ++ review_instructions) s
          (Calm-refl s.row) (s.row.snapshot, checked))
        (λ reply t k. after_reply-Holds p s.row reply t checked k)
