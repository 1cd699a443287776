-- ===== src/Loop/Protocol.antt =====
-- The specification of a run's evidence, as the steps that may add to it: a reviewer is invoked only
-- after a check that exited with 0, and a review is of a snapshot with such a check.
use software_factory_templat.Base.{
  ℕ, ◌+◌, arith, true, Option, List, [], ◌∷◌, ◌++◌, append_assoc, append-nil, Bytes, ◌≡◌, refl, sym,
}
use software_factory_templat.Budget.Numbers.{Integer}
use software_factory_templat.Loop.State.{
  Fingerprint, Role, implementer, reviewer, Evidence, checked, invoked, reviewed,
}
use software_factory_templat.Loop.Check.{is_zero}
use software_factory_templat.Loop.Verdict.{agrees}

abbrev pub Extends : List Evidence → List Evidence → Type 0
Extends xs ys = (zs : List Evidence) × (ys ≡ xs ++ zs)

pub Extends-refl : (xs : List Evidence) → Extends xs xs
Extends-refl xs = ([], sym (append-nil xs))

pub Extends-trans : (xs ys zs : List Evidence) → Extends xs ys → Extends ys zs → Extends xs zs
Extends-trans xs ys zs (us, e) (vs, f) = (us ++ vs, rw f (rw e (append_assoc xs us vs)))

-- The evidence has a check of this snapshot that exited with 0.
abbrev pub Checked : Fingerprint → List Evidence → Type 0
Checked f es =
    (ys : List Evidence) × (code : Option Integer) × (outcome : Bytes) × (is_zero code ≡ true)
    × Extends (ys ++ (checked code outcome f ∷ [])) es

pub Checked-Extends :
    (f : Fingerprint) (xs ys : List Evidence) → Checked f xs → Extends xs ys → Checked f ys
Checked-Extends f xs ys (es, code, outcome, z, h) k =
    (es, code, outcome, z, Extends-trans (es ++ (checked code outcome f ∷ [])) xs ys h k)

-- Whether a role may be invoked after this evidence.
abbrev pub MayInvoke : Role → List Evidence → Type 0
MayInvoke implementer es = Unit {0}
MayInvoke reviewer es = (f : Fingerprint) × Checked f es

pub MayInvoke-Extends :
    (role : Role) (xs ys : List Evidence) → MayInvoke role xs → Extends xs ys → MayInvoke role ys
MayInvoke-Extends implementer xs ys h k = tt
MayInvoke-Extends reviewer xs ys (f, h) k = (f, Checked-Extends f xs ys h k)

-- The invocations of the implementer that the evidence notes.
abbrev pub implementer_entry : Evidence → ℕ
implementer_entry (checked code outcome f) = 0
implementer_entry (invoked implementer id outcome) = 1
implementer_entry (invoked reviewer id outcome) = 0
implementer_entry (reviewed v n f) = 0

unfoldable pub implementer_entries : List Evidence → ℕ
implementer_entries [] = 0
implementer_entries (e ∷ es) = implementer_entry e + implementer_entries es

pub implementer_entries-append :
    (es : List Evidence) (e : Evidence)
    → implementer_entries (es ++ (e ∷ [])) ≡ implementer_entries es + implementer_entry e
unfolding implementer_entries
implementer_entries-append [] e = omega arith
implementer_entries-append (x ∷ es) e = omega (arith, implementer_entries-append es e)

-- What may be added next.
abbrev pub Allowed : List Evidence → Evidence → Type 0
Allowed es (checked code outcome f) = Unit {0}
Allowed es (invoked role id outcome) = MayInvoke role es
Allowed es (reviewed v n f) = Checked f es × (agrees v n ≡ true)

pub data Steps (xs : List Evidence) : List Evidence → Type 0 where
  stay : Steps xs xs
  add : {ys : List Evidence} (e : Evidence) → Steps xs ys → Allowed ys e → Steps xs (ys ++ (e ∷ []))

pub Steps-trans : {xs ys zs : List Evidence} → Steps xs ys → Steps ys zs → Steps xs zs
Steps-trans p stay = p
Steps-trans p (add e q h) = add e (Steps-trans p q) h

pub Steps-Extends : {xs ys : List Evidence} → Steps xs ys → Extends xs ys
Steps-Extends {xs = xs} stay = Extends-refl xs
Steps-Extends {xs = xs} (add {ys = ys} e p h) =
    Extends-trans xs ys (ys ++ (e ∷ [])) (Steps-Extends p) (e ∷ [], refl)
