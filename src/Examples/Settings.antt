-- ===== src/Examples/Settings.antt =====
-- A configuration of two settings, edited.
use software_factory_templat.Base.{
  false, none, List, [], ◌∷◌, Bytes, codes, ◌≡◌, refl, All, Result, ok, err, ◌>>=◌,
}
use software_factory_templat.Base.Assoc.{lookup}
use software_factory_templat.Base.Rows.{split}
use software_factory_templat.Config.Write.{rewrite_config, configuration_line}
use software_factory_templat.Config.Write.Total.{rewrite_config-edited, capped, edited}
use software_factory_templat.Config.Edit.{EditEntry, EditPlan, new_edit_plan, set, bytes, rendered}
use software_factory_templat.Config.Edit.Refine.{IsSized, set-IsSized, set-bytes}
use software_factory_templat.Config.Edit.Create.{new_edit_plan-IsSized}
use software_factory_templat.Config.Edit.Many.{
  Change, Fits, set_all, rewrite_all, edits-rewrite_all,
}

abbrev ok_or {ℓ} : {A : Type ℓ} → A → Result A → A
ok_or a (ok b) = b
ok_or a (err e) = a

abbrev content : Bytes
content = codes "mode: fast\n# note\nroot: a\nmode: slow\nlast: 1"

abbrev selected : List Bytes
selected = codes "mode" ∷ codes "last" ∷ codes "color" ∷ []

abbrev no_plan : EditPlan
no_plan = record { body = []; entries = []; tail = none; appended = []; by_key = []; size = 0 }

abbrev plan : EditPlan
plan = ok_or no_plan (new_edit_plan content selected)

plan_made : new_edit_plan content selected ≡ ok plan
unfolding new_edit_plan
plan_made = refl

abbrev changes : List Change
changes =
    record { key = codes "mode"; value = codes "safe" }
    ∷ record { key = codes "color"; value = codes "red" }
    ∷ record { key = codes "last"; value = codes "2" }
    ∷ record { key = codes "color"; value = codes "blue" }
    ∷ []

changes_fit : All (Fits plan) changes
unfolding new_edit_plan lookup split
changes_fit = ((refl, refl), ((refl, refl), ((refl, refl), ((refl, refl), tt))))

edits-rewrite_all_example : (set_all plan changes >>= bytes) ≡ rewrite_all content changes
edits-rewrite_all_example = edits-rewrite_all content selected plan changes plan_made changes_fit

plan-IsSized : IsSized plan
plan-IsSized = (new_edit_plan-IsSized content selected plan plan_made).0

new_edit_plan-IsSized_example : IsSized plan × (rendered plan ≡ content)
new_edit_plan-IsSized_example = new_edit_plan-IsSized content selected plan plan_made

abbrev last_entry : EditEntry
last_entry = record { count = 0; content_size = 0; first = []; replacement = []; replaced = false }

set-bytes_example :
    (set plan (codes "last") (codes "7") >>= bytes)
    ≡ rewrite_config (rendered plan) (codes "last") (codes "7")
unfolding new_edit_plan lookup split
set-bytes_example = set-bytes plan (codes "last") (codes "7") last_entry plan-IsSized refl refl

abbrev edited_plan : EditPlan
edited_plan = ok_or no_plan (set plan (codes "mode") (codes "safe"))

plan_edited : set plan (codes "mode") (codes "safe") ≡ ok edited_plan
unfolding set new_edit_plan split
plan_edited = refl

set-IsSized_example : IsSized edited_plan
set-IsSized_example =
    set-IsSized plan edited_plan (codes "mode") (codes "safe") plan-IsSized plan_edited

rewrite_config-edited_example :
    rewrite_config content (codes "mode") (codes "safe")
    ≡ capped (
        edited
          (codes "mode")
          (configuration_line (codes "mode") (codes "safe"))
          (split content).0
          (split content).1)
rewrite_config-edited_example =
    rewrite_config-edited content (codes "mode") (codes "safe") refl refl
