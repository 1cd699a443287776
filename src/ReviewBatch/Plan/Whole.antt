-- ===== src/ReviewBatch/Plan/Whole.antt =====
-- Every fragment of the plan is in a batch, once.
use mathlib.Core.List.Perm
use mathlib.Core.List.{Perm, perm_middle, perm_append_singleton, perm_append_comm}
use mathlib.Core.Path.{subst, subst₂}
use software_factory_templat.Base.{
  ℕ, Option, none, some, List, [], ◌∷◌, ◌++◌, map, Bytes, bytes_eq, ◌≡◌, refl, sym, ap, Bool-cases,
  inl, inr, append_assoc, Result, ok, err,
}
use software_factory_templat.Base.Assoc.{lookup, insert}
use software_factory_templat.Base.Order.{bytes_le, insert_by_key, sort_by_key}
use software_factory_templat.ReviewBatch.Types.{Fragment, FileDiff, filename}
use software_factory_templat.ReviewBatch.Split.{split_file}
use software_factory_templat.ReviewBatch.Plan.{
  Gathered, related_key, group_or_empty, add_to_group, add_fragments, fragment_ids, gather_file,
  gather, nothing_gathered, batch_identity, make_plan,
}
use software_factory_templat.ReviewBatch.Plan.Packed.{
  batch_fragments, group_fragments, pack-fragments,
}

add_last : (f : Fragment) (g rest : List Fragment) → Perm ((g ++ f ∷ []) ++ rest) (f ∷ (g ++ rest))
add_last f g rest =
    subst (λ l. Perm l (f ∷ (g ++ rest))) (sym (append_assoc g (f ∷ []) rest)) (perm_middle g rest)

insert-Perm :
    (key : Bytes) (f : Fragment) (groups : List (Bytes × List Fragment))
    (o : Option (List Fragment))
    → lookup key groups ≡ o
    → Perm
        (group_fragments (insert key (group_or_empty o ++ f ∷ []) groups))
        (f ∷ group_fragments groups)
unfolding insert lookup
insert-Perm key f [] none h = Perm.refl (f ∷ [])
insert-Perm key f [] (some g) h = cc
insert-Perm key f ((j, g) ∷ m) o h = elim (Bool-cases (bytes_eq j key)) [
  | inl e ↦ rw e (
      subst
        (λ x.
          Perm ((group_or_empty x ++ f ∷ []) ++ group_fragments m) (f ∷ (g ++ group_fragments m)))
        (rw e at h) (add_last f g (group_fragments m)))
  | inr e ↦ rw e (
      Perm.trans (Perm.append_left g (insert-Perm key f m o (rw e at h)))
        (perm_middle g (group_fragments m)))
]

insert_by_key-Perm :
    (p : Bytes × List Fragment) (ps : List (Bytes × List Fragment))
    → Perm (group_fragments (insert_by_key p ps)) (p.1 ++ group_fragments ps)
unfolding insert_by_key
insert_by_key-Perm p [] = Perm.refl (p.1 ++ [])
insert_by_key-Perm p (q ∷ qs) = elim (Bool-cases (bytes_le p.0 q.0)) [
  | inl e ↦ rw e (Perm.refl (p.1 ++ (q.1 ++ group_fragments qs)))
  | inr e ↦ rw e (
      Perm.trans (Perm.append_left q.1 (insert_by_key-Perm p qs))
        (swap_front q.1 p.1 (group_fragments qs)))
]
  where
    swap_front : (a b c : List Fragment) → Perm (a ++ (b ++ c)) (b ++ (a ++ c))
    swap_front a b c =
        subst (λ l. Perm l (b ++ (a ++ c))) (append_assoc a b c)
          (subst (λ l. Perm ((a ++ b) ++ c) l) (append_assoc b a c)
            (Perm.append_right c (perm_append_comm a b)))

sort_by_key-Perm :
    (ps : List (Bytes × List Fragment))
    → Perm (group_fragments (sort_by_key ps)) (group_fragments ps)
unfolding sort_by_key
sort_by_key-Perm [] = Perm.refl []
sort_by_key-Perm (p ∷ ps) =
    Perm.trans (insert_by_key-Perm p (sort_by_key ps)) (Perm.append_left p.1 (sort_by_key-Perm ps))

-- The groups hold what was gathered.
abbrev Grouped : Gathered → Type 0
Grouped g = Perm (group_fragments g.groups) g.fragments

add_fragments-Grouped :
    (fs : List Fragment) (g : Gathered) → Grouped g → Grouped (add_fragments fs g)
unfolding add_fragments add_to_group
add_fragments-Grouped [] g h = h
add_fragments-Grouped (f ∷ fs) g h =
    add_fragments-Grouped fs
      (record g { fragments = g.fragments ++ f ∷ []; groups = add_to_group f g.groups })
      (Perm.trans
        (insert-Perm (related_key f.path) f g.groups (lookup (related_key f.path) g.groups) refl)
        (Perm.trans (Perm.cons f h) (Perm.symm (perm_append_singleton f g.fragments))))

gather_file-Grouped :
    (name : Bytes) (r : Result (List Fragment)) (g : Gathered)
    → Grouped g
    → Grouped (gather_file name r g)
unfolding gather_file
gather_file-Grouped name (ok fs) g h = add_fragments-Grouped fs g h
gather_file-Grouped name (err reason) g h = h

fragment_ids-Perm : {a b : List Fragment} → Perm a b → Perm (fragment_ids a) (fragment_ids b)
fragment_ids-Perm {a} {b} h =
    subst₂ (λ x y. Perm x y) (ids-map a) (ids-map b) (Perm.map (λ (f : Fragment). f.id) h)
  where
    ids-map : (l : List Fragment) → map (λ (f : Fragment). f.id) l ≡ fragment_ids l
    ids-map [] = refl
    ids-map (f ∷ fs) = ap (λ t. f.id ∷ t) (ids-map fs)

module _ (digest : Bytes → Bytes) (marshal : List Bytes → Bytes) where
  gather-Grouped :
      (diffs : List FileDiff) (limit : ℕ) (g : Gathered)
      → Grouped g
      → Grouped (gather digest marshal diffs limit g)
  unfolding gather
  gather-Grouped [] limit g h = h
  gather-Grouped (d ∷ ds) limit g h =
      gather-Grouped ds limit (gather_file (filename d) (split_file digest d limit) g)
        (gather_file-Grouped (filename d) (split_file digest d limit) g h)

  -- The fragments that the batches of a plan name are those of the plan, each as often as the plan
  -- has it.
  pub make_plan-Perm :
      (repository base policy_json shared : Bytes) (batch_bytes : ℕ) (diffs : List FileDiff)
      → let plan = make_plan digest marshal repository base policy_json shared batch_bytes diffs in
        Perm (batch_fragments plan.batches) (fragment_ids plan.fragments)
  unfolding make_plan
  make_plan-Perm repository base policy_json shared batch_bytes diffs =
      let g = gather digest marshal diffs batch_bytes nothing_gathered in
      subst (λ l. Perm l (fragment_ids g.fragments))
        (sym (
          pack-fragments
            (batch_identity digest marshal repository base (digest policy_json) (digest shared))
            batch_bytes g.groups))
        (fragment_ids-Perm (
          Perm.trans (sort_by_key-Perm g.groups)
            (gather-Grouped diffs batch_bytes nothing_gathered (Perm.refl []))))
