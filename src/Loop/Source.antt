-- ===== src/Loop/Source.antt =====
-- What fresh of manual_run.go does to the row, and what it guarantees of a snapshot that it accepts.
use software_factory_templat.Base.{
  Bool, true, false, Option, none, some, bytes_eq_iff, ◌≡◌, refl, subst, arith,
}
use software_factory_templat.Loop.State.{Fingerprint, fingerprint_eq, Row, State, World}
use software_factory_templat.Loop.Turn.{End, go}
use software_factory_templat.Loop.Checkpoint.{
  is_match_of, same_text, accept_snapshot, fresh_source, fresh,
}
use software_factory_templat.Loop.Holds.{Holds, if-Holds, choose-Holds}
use software_factory_templat.Loop.Calm.{Calm, Quiet}

-- An accepted snapshot is on the row, has the baseline's head and safety, and is the previous one.
abbrev pub IsAccepted : Option Fingerprint → Option Fingerprint → Row → Type 0
IsAccepted previous none r = Unit {0}
IsAccepted none (some f) r =
    (r.snapshot ≡ f) × (f.head ≡ r.baseline.head) × (f.safety ≡ r.baseline.safety)
IsAccepted (some previous) (some f) r =
    (r.snapshot ≡ f) × (f.head ≡ r.baseline.head) × (f.safety ≡ r.baseline.safety) × (f ≡ previous)

abbrev pub Fresh : Row → Option Fingerprint → Option Fingerprint → State → Type 0
Fresh r0 previous f s = Calm r0 s.row × IsAccepted previous f s.row

pub fingerprint_eq_sound : (a b : Fingerprint) → fingerprint_eq a b ≡ true → a ≡ b
fingerprint_eq_sound a b h =
    let head : a.head ≡ b.head = ground (arith, h, bytes_eq_iff a.head b.head) in
    let source : a.source ≡ b.source = ground (arith, h, bytes_eq_iff a.source b.source) in
    let safety : a.safety ≡ b.safety = ground (arith, h, bytes_eq_iff a.safety b.safety) in cc

pub is_match_of-IsAccepted :
    (r : Row) (previous : Option Fingerprint) (f : Fingerprint)
    → is_match_of r.baseline previous f ≡ true
    → IsAccepted previous (some f) (record r { snapshot = f })
is_match_of-IsAccepted r none f h = (
  refl,
  ground (arith, h, bytes_eq_iff f.head r.baseline.head),
  ground (arith, h, bytes_eq_iff f.safety r.baseline.safety),
)
is_match_of-IsAccepted r (some p) f h = (
  refl,
  ground (arith, h, bytes_eq_iff f.head r.baseline.head),
  ground (arith, h, bytes_eq_iff f.safety r.baseline.safety),
  fingerprint_eq_sound f p (ground (arith, h)),
)

pub accept_snapshot-Holds :
    (r0 : Row) (previous f : Option Fingerprint) (s : State)
    → Calm r0 s.row
    → Holds (Fresh r0 previous) (Quiet r0) (accept_snapshot previous f s)
unfolding accept_snapshot
accept_snapshot-Holds r0 previous none s c = (c, tt)
accept_snapshot-Holds r0 previous (some f) s c =
    choose-Holds (Fresh r0 previous) (Quiet r0) (is_match_of s.row.baseline previous f) _ _
      (λ h. (c, is_match_of-IsAccepted s.row previous f h)) (λ h. (c, tt))

pub fresh_source-Holds :
    (w : World) (r0 : Row) (previous : Option Fingerprint) (s : State)
    → Calm r0 s.row
    → Holds (Fresh r0 previous) (Quiet r0) (fresh_source w previous s)
unfolding fresh_source
fresh_source-Holds w r0 previous s c =
    if-Holds (Fresh r0 previous) (Quiet r0) (same_text (w.policy s.tick) s.row.policy) _ _ _
      (λ h. accept_snapshot-Holds r0 previous _ _ c) (λ h. (c, tt))

pub fresh-Holds :
    (w : World) (r0 : Row) (bounded : Bool) (previous : Option Fingerprint) (s : State)
    → Calm r0 s.row
    → Holds (Fresh r0 previous) (Quiet r0) (fresh w bounded previous s)
unfolding fresh
fresh-Holds w r0 false previous s c = fresh_source-Holds w r0 previous s c
fresh-Holds w r0 true previous s c =
    if-Holds (Fresh r0 previous) (Quiet r0) (same_text (w.prompt s.tick) s.row.prompt) _ _ _
      (λ h. fresh_source-Holds w r0 previous _ c) (λ h. (c, tt))

-- The row is `r0`, but for an accepted snapshot.
abbrev pub IsAnswered : Row → Option Fingerprint → Option Fingerprint → State → Type 0
IsAnswered r0 previous none s = s.row ≡ r0
IsAnswered r0 previous (some f) s =
    (s.row ≡ record r0 { snapshot = f }) × IsAccepted previous (some f) (record r0 { snapshot = f })

abbrev Kept : Row → End → State → Type 0
Kept r0 e s = s.row ≡ r0

accept_snapshot-IsAnswered :
    (previous f : Option Fingerprint) (s : State)
    → Holds (IsAnswered s.row previous) (Kept s.row) (accept_snapshot previous f s)
unfolding accept_snapshot
accept_snapshot-IsAnswered previous none s = refl
accept_snapshot-IsAnswered previous (some f) s =
    choose-Holds (IsAnswered s.row previous) (Kept s.row) (is_match_of s.row.baseline previous f) _
      _ (λ h. (refl, is_match_of-IsAccepted s.row previous f h)) (λ h. refl)

fresh_source-IsAnswered :
    (w : World) (previous : Option Fingerprint) (s : State)
    → Holds (IsAnswered s.row previous) (Kept s.row) (fresh_source w previous s)
unfolding fresh_source
fresh_source-IsAnswered w previous s =
    if-Holds (IsAnswered s.row previous) (Kept s.row) (same_text (w.policy s.tick) s.row.policy) _ _
      _ (λ h. accept_snapshot-IsAnswered previous _ _) (λ h. refl)

fresh-IsAnswered :
    (w : World) (bounded : Bool) (previous : Option Fingerprint) (s : State)
    → Holds (IsAnswered s.row previous) (Kept s.row) (fresh w bounded previous s)
unfolding fresh
fresh-IsAnswered w false previous s = fresh_source-IsAnswered w previous s
fresh-IsAnswered w true previous s =
    if-Holds (IsAnswered s.row previous) (Kept s.row) (same_text (w.prompt s.tick) s.row.prompt) _ _
      _ (λ h. fresh_source-IsAnswered w previous _) (λ h. refl)

-- If fresh answers none, then the row is as it was before; if it accepts a snapshot, then the row
-- is as it was but for having that snapshot, and the snapshot has the head and the safety digest
-- of the baseline and is the previous one where one is given.
pub fresh-IsAccepted :
    (w : World) (bounded : Bool) (previous f : Option Fingerprint) (s t : State)
    → fresh w bounded previous s ≡ go f t
    → IsAnswered s.row previous f t
fresh-IsAccepted w bounded previous f s t accepts =
    subst (Holds (IsAnswered s.row previous) (Kept s.row)) accepts
      (fresh-IsAnswered w bounded previous s)
