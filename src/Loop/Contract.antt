-- ===== src/Loop/Contract.antt =====
-- What an accepted reviewer's response satisfies.
use software_factory_templat.Base.{
  ℕ, suc, Bool, true, not, ◌&&◌, ◌==◌, ltb, Option, none, some, List, [], ◌∷◌, Bytes, codes, length,
  ◌≡◌, ◌≤◌, refl, subst, ap, arith,
}
use software_factory_templat.Budget.Json.{Items, Fields, nil, cons, get}
use software_factory_templat.Loop.State.{Verdict, Row, State, World}
use software_factory_templat.Loop.Turn.{End, go, M}
use software_factory_templat.Loop.Runes.{Unicode}
use software_factory_templat.Loop.Verdict.{
  Review, count_fields, count_items, object_of, array_of, string_of, verdict_of, agrees, is_finding,
  cons_finding, read_finding, read_findings, with_findings, read_review, read_object, parse_verdict,
}
use software_factory_templat.Loop.Holds.{Holds, if-Holds, bind-Holds}

module _ (u : Unicode) (w : World) where
  abbrev pub all_findings : List Bytes → Bool
  all_findings [] = true
  all_findings (s ∷ rest) = is_finding u w s && all_findings rest

  -- At most fifty findings that can be shown, and none exactly where the verdict approves.
  abbrev pub IsContract : Review → Type 0
  IsContract v =
      (agrees v.verdict (length v.findings) ≡ true)
      × (length v.findings ≤ 50)
      × (all_findings v.findings ≡ true)

  abbrev pub Read : ℕ → Row → Option (List Bytes) → State → Type 0
  Read n r none t = t.row ≡ r
  Read n r (some fs) t = (t.row ≡ r) × (length fs ≡ n) × (all_findings fs ≡ true)

  abbrev pub Parsed : Row → Option Review → State → Type 0
  Parsed r none t = t.row ≡ r
  Parsed r (some v) t = (t.row ≡ r) × IsContract v

  module _ (r : Row) (R : End → State → Type 0) where
    cons_finding-Holds :
        (n : ℕ) (s : Bytes) (fs : Option (List Bytes)) (t : State)
        → is_finding u w s ≡ true
        → Read n r fs t
        → Holds (Read (suc n) r) R (cons_finding u w s fs t)
    cons_finding-Holds n s none t e h = h
    cons_finding-Holds n s (some fs) t e (same, counted, valid) = (same, ap suc counted, rw e valid)

    read_finding-Holds :
        (n : ℕ) (s : Option Bytes) (late : Bool) (rest : M (Option (List Bytes))) (t : State)
        → t.row ≡ r
        → Holds (Read n r) R (rest t)
        → Holds (Read (suc n) r) R (read_finding u w s late rest t)
    read_finding-Holds n none late rest t same h = same
    read_finding-Holds n (some s) late rest t same h =
        if-Holds (Read (suc n) r) R (not late && is_finding u w s) _ _ t
          (λ e.
            bind-Holds (Read n r) (Read (suc n) r) R (rest t) (cons_finding u w s) h
              (λ fs v. cons_finding-Holds n s fs v (ground (arith, e))))
          (λ e. same)

    read_findings-Holds :
        (items : Items) (t : State)
        → t.row ≡ r
        → Holds (Read (count_items items) r) R (read_findings u w items t)
    unfolding read_findings
    read_findings-Holds nil t same = (same, refl, refl)
    read_findings-Holds (cons v vs) t same =
        read_finding-Holds (count_items vs) (string_of v) (w.ended t.tick) _
          (record t { tick = suc t.tick }) same
          (read_findings-Holds vs (record t { tick = suc t.tick }) same)

    with_findings-Holds :
        (v : Verdict) (n : ℕ) (fs : Option (List Bytes)) (t : State)
        → agrees v n ≡ true
        → n ≤ 50
        → Read n r fs t
        → Holds (Parsed r) R (with_findings u w v fs t)
    with_findings-Holds v n none t e b h = h
    with_findings-Holds v n (some fs) t e b (same, counted, valid) =
        (same, (rw counted e, rw counted b, valid))

    read_review-Holds :
        (v : Option Verdict) (items : Option Items) (t : State)
        → t.row ≡ r
        → Holds (Parsed r) R (read_review u w v items t)
    read_review-Holds none items t same = same
    read_review-Holds (some v) none t same = same
    read_review-Holds (some v) (some items) t same =
        if-Holds (Parsed r) R (not (ltb 50 (count_items items)) && agrees v (count_items items)) _ _
          t
          (λ e.
            bind-Holds (Read (count_items items) r) (Parsed r) R _ (with_findings u w v)
              (read_findings-Holds items t same)
              (λ fs s.
                with_findings-Holds v (count_items items) fs s (ground (arith, e))
                  (ground (arith, e))))
          (λ e. same)

    read_object-Holds :
        (m : Option Fields) (t : State) → t.row ≡ r → Holds (Parsed r) R (read_object u w m t)
    read_object-Holds none t same = same
    read_object-Holds (some m) t same =
        if-Holds (Parsed r) R (count_fields m == 2) _ _ t
          (λ e.
            read_review-Holds (verdict_of (get m (codes "verdict")))
              (array_of (get m (codes "findings"))) t same)
          (λ e. same)

    pub parse_verdict-Holds :
        (response : Bytes) (t : State)
        → t.row ≡ r
        → Holds (Parsed r) R (parse_verdict u w response t)
    unfolding parse_verdict
    parse_verdict-Holds response t same =
        read_object-Holds (object_of (w.decode t.tick response)) _ same

-- A response that parse_verdict accepts leaves the row alone and has at most fifty findings, none
-- exactly where it approves, each neither blank nor longer than 4000 runes.
pub parse_verdict-IsContract :
    (u : Unicode) (w : World) (response : Bytes) (v : Review) (s t : State)
    → parse_verdict u w response s ≡ go (some v) t
    → (t.row ≡ s.row) × IsContract u w v
parse_verdict-IsContract u w response v s t accepts =
    subst (Holds (Parsed u w s.row) (λ e q. Unit {0})) accepts
      (parse_verdict-Holds u w s.row (λ e q. Unit {0}) response s refl)
