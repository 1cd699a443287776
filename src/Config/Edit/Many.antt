-- ===== src/Config/Edit/Many.antt =====
-- A new plan, any edits, and one rendering at the end.
use software_factory_templat.Base.{
  true, false, List, [], ◌∷◌, Bytes, ◌≡◌, refl, sym, ap, ◌∙◌, All, Option-cases, ◌⊎◌, inl, inr,
  String, Result, ok, err, ◌>>=◌,
}
use software_factory_templat.Base.Assoc.{lookup, is_some}
use software_factory_templat.Config.Write.{rewrite_config}
use software_factory_templat.Config.Edit.{
  EditPlan, new_edit_plan, set, bytes, rendered, bad_value_byte,
}
use software_factory_templat.Config.Edit.Refine.{
  IsSized, bytes-rendered, set-IsSized, set-rewrites, set-bytes, set-selected,
}
use software_factory_templat.Config.Edit.Create.{new_edit_plan-IsSized}

pub record Change : Type 0 where
  pub key : Bytes
  pub value : Bytes

-- The caller's loop over `Set`.
unfoldable pub set_all : EditPlan → List Change → Result EditPlan
set_all p [] = ok p
set_all p (c ∷ cs) = do q ← set p c.key c.value; set_all q cs

-- The same changes as single rewrites, one after the other.
unfoldable pub rewrite_all : Bytes → List Change → Result Bytes
rewrite_all content [] = ok content
rewrite_all content (c ∷ cs) = do d ← rewrite_config content c.key c.value; rewrite_all d cs

-- The change's key is selected, and its value stays on one row.
abbrev pub Fits : EditPlan → Change → Type 0
Fits p c = (is_some (lookup c.key p.entries) ≡ true) × (bad_value_byte c.value ≡ false)

Fits-set :
    (p q : EditPlan) (key value : Bytes) (cs : List Change)
    → IsSized p
    → set p key value ≡ ok q
    → All (Fits p) cs
    → All (Fits q) cs
Fits-set p q key value [] h e f = tt
Fits-set p q key value (c ∷ cs) h e f =
    ((set-selected p q key value c.key h e ∙ f.0.0, f.0.1), Fits-set p q key value cs h e f.1)

result-cases {ℓ} :
    {A : Type ℓ} (r : Result A) → ((e : String) × (r ≡ err e)) ⊎ ((a : A) × (r ≡ ok a))
result-cases (ok a) = inr (a, refl)
result-cases (err e) = inl (e, refl)

set_all-rewrite_all :
    (p : EditPlan) (cs : List Change)
    → IsSized p
    → All (Fits p) cs
    → (set_all p cs >>= bytes) ≡ rewrite_all (rendered p) cs
unfolding set_all rewrite_all
set_all-rewrite_all p [] h f = bytes-rendered p h
set_all-rewrite_all p (c ∷ cs) h f = elim (result-cases (set p c.key c.value)) [
  | inr (q, e) ↦
      rw (e, set-rewrites p q c.key c.value h e)
        (set_all-rewrite_all q cs (set-IsSized p q c.key c.value h e)
          (Fits-set p q c.key c.value cs h e f.1))
  | inl (m, e) ↦ elim (Option-cases (lookup c.key p.entries)) [
    | inl o ↦ cc (f.0.0)
    | inr (entry, o) ↦ rw (e, sym (set-bytes p c.key c.value entry h o f.0.1)) (rw e)
  ]
]

-- For a plan that new_edit_plan made of a text and a list of keys, and changes that each set a
-- selected key to a value free of NUL, CR, LF and quotes, making all changes on the plan and
-- rendering once gives what the same changes give as single rewrites of the text one after the
-- other, the result or the refusal.
pub edits-rewrite_all :
    (content : Bytes) (selected : List Bytes) (p : EditPlan) (changes : List Change)
    → new_edit_plan content selected ≡ ok p
    → All (Fits p) changes
    → (set_all p changes >>= bytes) ≡ rewrite_all content changes
edits-rewrite_all content selected p changes made f =
    let (sized, same) = new_edit_plan-IsSized content selected p made in
    set_all-rewrite_all p changes sized f ∙ ap (λ (d : Bytes). rewrite_all d changes) same
