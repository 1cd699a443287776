-- ===== src/ReviewBatch/Plan/Bounded.antt =====
-- No batch of a plan is longer than the configured batch bytes.
use mathlib.Core.Path.{subst}
use software_factory_templat.Base.{
  ℕ, ◌+◌, ◌^◌, ◌≤◌, ◌<◌, none, some, List, [], ◌∷◌, ◌++◌, ltb, Bytes, bytes_eq, length, All,
  All-append, ◌≡◌, refl, sym, arith, Bool-cases, inl, inr, Result, ok, err, eq_of_ok, >>=-eq-ok,
  ltb-false,
}
use software_factory_templat.Base.Assoc.{lookup, insert}
use software_factory_templat.Base.Order.{bytes_le, insert_by_key, sort_by_key}
use software_factory_templat.ReviewBatch.Types.{
  Fragment, Hunk, FileDiff, file_diff, Parts, nil, cons, filename,
}
use software_factory_templat.ReviewBatch.Split.{
  add, split_hunk, split_hunks, first_fragments, split_text, renumber, split_file, split_parts,
}
use software_factory_templat.ReviewBatch.Split.Chunks.{old_count, new_count}
use software_factory_templat.ReviewBatch.Split.Covers.{split_hunk-Covers}
use software_factory_templat.ReviewBatch.Split.Bounds.{Within, Covers-Within}
use software_factory_templat.ReviewBatch.Plan.{
  Gathered, related_key, group_or_empty, add_to_group, add_fragments, gather_file, gather,
  nothing_gathered, batch_identity, make_plan,
}
use software_factory_templat.ReviewBatch.Plan.Packed.{IsBatch, AllWithin, pack-IsBatch}

-- The hunk's coordinates have at most nineteen digits, which a parsed `int` always has.
abbrev pub IsBounded : Hunk → Type 0
IsBounded h =
    (h.old_start + old_count h.lines < 10 ^ 19) × (h.new_start + new_count h.lines < 10 ^ 19)

abbrev mutual
  pub AllBounded : FileDiff → Type 0
  AllBounded (file_diff name header hunks reason parts) = All IsBounded hunks × PartsBounded parts

  pub PartsBounded : Parts → Type 0
  PartsBounded nil = Unit
  PartsBounded (cons part parts) = AllBounded part × PartsBounded parts

module _ (digest : Bytes → Bytes) (limit : ℕ) where
  split_hunks-Within :
      (path header : Bytes) (hunks : List Hunk) (result r : List Fragment)
      → length header + 128 ≤ limit
      → All IsBounded hunks
      → All (Within limit) result
      → split_hunks digest path header limit hunks result ≡ ok r
      → All (Within limit) r
  unfolding split_hunks
  split_hunks-Within path header [] result r room b h e = subst (All (Within limit)) (eq_of_ok e) h
  split_hunks-Within path header (k ∷ ks) result r room b h e =
      let (done, first, rest) =
        >>=-eq-ok
          (split_hunk digest (length k.lines) path header limit k.old_start k.new_start k.lines
            result)
          (λ d. split_hunks digest path header limit ks d) e in
      let (fs, same, covers) =
        split_hunk-Covers digest path header limit room (length k.lines) k.old_start k.new_start
          k.lines result done first in
      split_hunks-Within path header ks done r room b.1
        (subst (All (Within limit)) (sym same) (
          All-append (Within limit) result fs h
            (Covers-Within digest path header limit covers b.0.0 b.0.1)))
        rest

  first_fragments-Within :
      (path header : Bytes) (hunks : List Hunk)
      → length header + 128 ≤ limit
      → All (Within limit) (first_fragments digest path header hunks)
  unfolding first_fragments add
  first_fragments-Within path header [] h = (omega arith, tt)
  first_fragments-Within path header (k ∷ ks) h = tt

  split_text-Within :
      (path header : Bytes) (hunks : List Hunk) (r : List Fragment)
      → All IsBounded hunks
      → split_text digest path header hunks limit ≡ ok r
      → All (Within limit) r
  unfolding split_text
  split_text-Within path header hunks r b e = elim (Bool-cases (ltb limit (length header + 128))) [
    | inl long ↦ cc (rw long at e)
    | inr fits ↦
        let room = ltb-false limit (length header + 128) fits in
        split_hunks-Within path header hunks (first_fragments digest path header hunks) r room b
          (first_fragments-Within path header hunks room) (rw fits at e)
  ]

  renumber-Within :
      (items fragments : List Fragment)
      → All (Within limit) fragments
      → All (Within limit) items
      → All (Within limit) (renumber digest fragments items)
  unfolding renumber
  renumber-Within [] fragments h k = h
  renumber-Within (item ∷ items) fragments h k =
      renumber-Within items (fragments ++ record item { index = length fragments + 1 } ∷ [])
        (All-append (Within limit) fragments (record item { index = length fragments + 1 } ∷ []) h
          ((k.0, tt)))
        k.1

  mutual
    unfolding split_file

    file-Within :
        (d : FileDiff) (r : List Fragment)
        → AllBounded d
        → split_file digest d limit ≡ ok r
        → All (Within limit) r
    file-Within (file_diff name header hunks (some reason) parts) r b e = cc
    file-Within (file_diff name header hunks none nil) r b e =
        split_text-Within name header hunks r b.0 e
    file-Within (file_diff name header hunks none (cons part parts)) r b e =
        parts-Within (cons part parts) [] r b.1 tt e

    parts-Within :
        (parts : Parts) (fragments r : List Fragment)
        → PartsBounded parts
        → All (Within limit) fragments
        → split_parts digest parts limit fragments ≡ ok r
        → All (Within limit) r
    parts-Within nil fragments r b h e = subst (All (Within limit)) (eq_of_ok e) h
    parts-Within (cons part parts) fragments r b h e =
        let (items, first, rest) =
          >>=-eq-ok (split_file digest part limit)
            (λ i. split_parts digest parts limit (renumber digest fragments i)) e in
        parts-Within parts (renumber digest fragments items) r b.1
          (renumber-Within items fragments h (file-Within part items b.0 first)) rest

  -- If the end coordinates of every hunk of a diff, in both versions of the file, are below 10^19,
  -- every fragment that split_file gives has a patch at most the limit long.
  pub split_file-Within :
      (d : FileDiff) (r : List Fragment)
      → AllBounded d
      → split_file digest d limit ≡ ok r
      → All (Within limit) r
  split_file-Within d r b e = file-Within d r b e

  -- Each group of what was gathered is within the limit.
  insert-AllWithin :
      (key : Bytes) (group : List Fragment) (groups : List (Bytes × List Fragment))
      → All (Within limit) group
      → AllWithin limit groups
      → AllWithin limit (insert key group groups)
  unfolding insert
  insert-AllWithin key group [] h k = (h, tt)
  insert-AllWithin key group ((j, g) ∷ m) h k = elim (Bool-cases (bytes_eq j key)) [
    | inl e ↦ rw e ((h, k.1))
    | inr e ↦ rw e ((k.0, insert-AllWithin key group m h k.1))
  ]

  lookup-AllWithin :
      (key : Bytes) (groups : List (Bytes × List Fragment))
      → AllWithin limit groups
      → All (Within limit) (group_or_empty (lookup key groups))
  unfolding lookup
  lookup-AllWithin key [] k = tt
  lookup-AllWithin key ((j, g) ∷ m) k = elim (Bool-cases (bytes_eq j key)) [
    | inl e ↦ rw e k.0
    | inr e ↦ rw e (lookup-AllWithin key m k.1)
  ]

  add_fragments-AllWithin :
      (fs : List Fragment) (g : Gathered)
      → All (Within limit) fs
      → AllWithin limit g.groups
      → AllWithin limit (add_fragments fs g).groups
  unfolding add_fragments add_to_group
  add_fragments-AllWithin [] g h k = k
  add_fragments-AllWithin (f ∷ fs) g h k =
      let key = related_key f.path in
      add_fragments-AllWithin fs
        (record g { fragments = g.fragments ++ f ∷ []; groups = add_to_group f g.groups }) h.1
        (insert-AllWithin key (group_or_empty (lookup key g.groups) ++ f ∷ []) g.groups
          (All-append (Within limit) (group_or_empty (lookup key g.groups)) (f ∷ [])
            (lookup-AllWithin key g.groups k) ((h.0, tt)))
          k)

  gather_file-AllWithin :
      (name : Bytes) (r : Result (List Fragment)) (g : Gathered)
      → ((fs : List Fragment) → r ≡ ok fs → All (Within limit) fs)
      → AllWithin limit g.groups
      → AllWithin limit (gather_file name r g).groups
  unfolding gather_file
  gather_file-AllWithin name (ok fs) g h k = add_fragments-AllWithin fs g (h fs refl) k
  gather_file-AllWithin name (err reason) g h k = k

  insert_by_key-AllWithin :
      (p : Bytes × List Fragment) (ps : List (Bytes × List Fragment))
      → All (Within limit) p.1
      → AllWithin limit ps
      → AllWithin limit (insert_by_key p ps)
  unfolding insert_by_key
  insert_by_key-AllWithin p [] h k = (h, tt)
  insert_by_key-AllWithin p (q ∷ qs) h k = elim (Bool-cases (bytes_le p.0 q.0)) [
    | inl e ↦ rw e ((h, k))
    | inr e ↦ rw e ((k.0, insert_by_key-AllWithin p qs h k.1))
  ]

  sort_by_key-AllWithin :
      (ps : List (Bytes × List Fragment)) → AllWithin limit ps → AllWithin limit (sort_by_key ps)
  unfolding sort_by_key
  sort_by_key-AllWithin [] k = tt
  sort_by_key-AllWithin (p ∷ ps) k =
      insert_by_key-AllWithin p (sort_by_key ps) k.0 (sort_by_key-AllWithin ps k.1)

  module _ (marshal : List Bytes → Bytes) where
    gather-AllWithin :
        (diffs : List FileDiff) (g : Gathered)
        → All AllBounded diffs
        → AllWithin limit g.groups
        → AllWithin limit (gather digest marshal diffs limit g).groups
    unfolding gather
    gather-AllWithin [] g b k = k
    gather-AllWithin (d ∷ ds) g b k =
        gather-AllWithin ds (gather_file (filename d) (split_file digest d limit) g) b.1 (
          gather_file-AllWithin (filename d) (split_file digest d limit) g
            (λ fs e. split_file-Within d fs b.0 e) k)

    -- If the end coordinates of every hunk, in both versions of the file, are below 10^19, every
    -- batch of a plan names a fragment and its patch is at most the configured batch bytes long.
    pub make_plan-IsBatch :
        (repository base policy_json shared : Bytes) (diffs : List FileDiff)
        → All AllBounded diffs
        → All
            (IsBatch limit)
            (make_plan digest marshal repository base policy_json shared limit diffs).batches
    unfolding make_plan
    make_plan-IsBatch repository base policy_json shared diffs b =
        let g = gather digest marshal diffs limit nothing_gathered in
        pack-IsBatch
          (batch_identity digest marshal repository base (digest policy_json) (digest shared)) limit
          g.groups (sort_by_key-AllWithin g.groups (gather-AllWithin diffs nothing_gathered b tt))
