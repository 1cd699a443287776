-- ===== src/Loop/Verdict.antt =====
-- bounded_input.go: parseVerdict, the strict contract of a reviewer's response.
use software_factory_templat.Base.{
  ℕ, suc, Bool, true, false, not, ◌&&◌, ◌==◌, ltb, Option, none, some, List, [], ◌∷◌, Bytes, codes,
  bytes_eq, if◌then◌else◌,
}
use software_factory_templat.Budget.Json.{
  Json, Items, Fields, null, boolean, number, text, array, object, nil, cons, empty, field, get,
}
use software_factory_templat.Loop.State.{Verdict, approve, repair, World}
use software_factory_templat.Loop.Turn.{M, ◌>>=◌, pure, ask}
use software_factory_templat.Loop.Runes.{Unicode, decoded_rune_count, is_blank}

pub record Review : Type 0 where
  pub verdict : Verdict
  pub findings : List Bytes

abbrev pub count_fields : Fields → ℕ
count_fields empty = 0
count_fields (field k v m) = suc (count_fields m)

abbrev pub count_items : Items → ℕ
count_items nil = 0
count_items (cons v vs) = suc (count_items vs)

abbrev pub object_of : Option Json → Option Fields
object_of (some (object m)) = some m
object_of (some null) = none
object_of (some (boolean b)) = none
object_of (some (number n)) = none
object_of (some (text s)) = none
object_of (some (array xs)) = none
object_of none = none

abbrev pub array_of : Json → Option Items
array_of (array xs) = some xs
array_of null = none
array_of (boolean b) = none
array_of (number n) = none
array_of (text s) = none
array_of (object m) = none

abbrev pub string_of : Json → Option Bytes
string_of (text s) = some s
string_of null = none
string_of (boolean b) = none
string_of (number n) = none
string_of (array xs) = none
string_of (object m) = none

abbrev pub verdict_of : Json → Option Verdict
verdict_of (text s) =
    if bytes_eq s (codes "approve")
    then some approve
    else if bytes_eq s (codes "repair")
    then some repair
    else none
verdict_of null = none
verdict_of (boolean b) = none
verdict_of (number n) = none
verdict_of (array xs) = none
verdict_of (object m) = none

abbrev pub is_approval : Verdict → Bool
is_approval approve = true
is_approval repair = false

-- `(verdict == "approve") != (len(findings) == 0)`, negated
abbrev pub agrees : Verdict → ℕ → Bool
agrees approve n = n == 0
agrees repair n = not (n == 0)

module _ (u : Unicode) (w : World) where
  abbrev pub is_finding : Bytes → Bool
  is_finding s = not (is_blank u s) && not (ltb 4000 (decoded_rune_count u s))

  abbrev pub cons_finding : Bytes → Option (List Bytes) → M (Option (List Bytes))
  cons_finding s none = pure none
  cons_finding s (some rest) = pure (some (s ∷ rest))

  abbrev pub read_finding : Option Bytes → Bool → M (Option (List Bytes)) → M (Option (List Bytes))
  read_finding none late rest = pure none
  read_finding (some s) late rest =
      if not late && is_finding s then rest >>= cons_finding s else pure none

  -- The loop over the findings; the context is asked before each.
  unfoldable pub read_findings : Items → M (Option (List Bytes))
  unfolding decoded_rune_count
  read_findings nil = pure (some [])
  read_findings (cons v vs) =
      ask w.ended >>= λ late. read_finding (string_of v) late (read_findings vs)

  abbrev pub with_findings : Verdict → Option (List Bytes) → M (Option Review)
  with_findings v none = pure none
  with_findings v (some findings) = pure (some (record { verdict = v; findings = findings }))

  abbrev pub read_review : Option Verdict → Option Items → M (Option Review)
  read_review none items = pure none
  read_review (some v) none = pure none
  read_review (some v) (some items) =
      if not (ltb 50 (count_items items)) && agrees v (count_items items)
      then read_findings items >>= with_findings v
      else pure none

  abbrev pub read_object : Option Fields → M (Option Review)
  read_object none = pure none
  read_object (some m) =
      if count_fields m == 2
      then read_review (verdict_of (get m (codes "verdict"))) (array_of (get m (codes "findings")))
      else pure none

  unfoldable pub parse_verdict : Bytes → M (Option Review)
  unfolding read_findings
  parse_verdict response = do value ← ask (λ n. w.decode n response); read_object (object_of value)
