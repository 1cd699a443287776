-- ===== src/ReviewBatch/Plan/Packed.antt =====
-- The packing loop: what is pending, what is in the batches, and that no batch is too long.
use software_factory_templat.Base.{
  ℕ, ◌+◌, ◌≤◌, true, false, ◌&&◌, List, [], ◌∷◌, ◌++◌, ltb, leb, Bytes, length, length-append, All,
  All-append, ◌≡◌, ◌≢◌, refl, sym, ap, ◌∙◌, arith, Bool-cases, inl, inr, append-nil, append_assoc,
  ltb-false,
}
use software_factory_templat.Base.Order.{sort_by_key}
use software_factory_templat.ReviewBatch.Types.{Fragment, Batch}
use software_factory_templat.ReviewBatch.Split.Bounds.{Within}
use software_factory_templat.ReviewBatch.Plan.{
  Packing, fragment_ids, patch_bytes, group_size, make_batch, flush_pending, flush, start_batch,
  push_fragment, pack_fragment, pack_fragments, pack_group, pack_groups, nothing_packed, pack,
}

pub patch_bytes-append :
    (a b : List Fragment) → patch_bytes (a ++ b) ≡ patch_bytes a ++ patch_bytes b
patch_bytes-append [] b = refl
patch_bytes-append (f ∷ fs) b =
    ap (λ t. f.patch ++ t) (patch_bytes-append fs b)
    ∙ sym (append_assoc f.patch (patch_bytes fs) (patch_bytes b))

pub fragment_ids-append :
    (a b : List Fragment) → fragment_ids (a ++ b) ≡ fragment_ids a ++ fragment_ids b
fragment_ids-append [] b = refl
fragment_ids-append (f ∷ fs) b = ap (λ t. f.id ∷ t) (fragment_ids-append fs b)

-- A batch has a fragment, and a patch text within the limit.
pub record IsBatch (limit : ℕ) (b : Batch) : Type 0 where
  pub short : length b.patch ≤ limit
  pub some_fragment : b.fragments ≢ []

-- What holds between two fragments.
pub record IsPacking (limit : ℕ) (p : Packing) : Type 0 where
  pub bytes_ok : p.pending_bytes ≡ length (patch_bytes p.pending)
  pub room : p.pending_bytes ≤ limit
  pub batches_ok : All (IsBatch limit) p.batches

abbrev pub batch_fragments : List Batch → List Bytes
batch_fragments [] = []
batch_fragments (b ∷ bs) = b.fragments ++ batch_fragments bs

batch_fragments-append :
    (a b : List Batch) → batch_fragments (a ++ b) ≡ batch_fragments a ++ batch_fragments b
batch_fragments-append [] b = refl
batch_fragments-append (x ∷ xs) b =
    ap (λ t. x.fragments ++ t) (batch_fragments-append xs b)
    ∙ sym (append_assoc x.fragments (batch_fragments xs) (batch_fragments b))

-- The fragments that were packed so far, in order.
abbrev pub packed : Packing → List Bytes
packed p = batch_fragments p.batches ++ fragment_ids p.pending

-- All groups' fragments, in order.
abbrev pub group_fragments : List (Bytes × List Fragment) → List Fragment
group_fragments [] = []
group_fragments ((key, group) ∷ rest) = group ++ group_fragments rest

abbrev pub AllWithin : ℕ → List (Bytes × List Fragment) → Type 0
AllWithin limit [] = Unit
AllWithin limit ((key, group) ∷ rest) = All (Within limit) group × AllWithin limit rest

module _ (batch_id : Bytes → Bytes) (limit : ℕ) where
  flush_pending-batches :
      (batches : List Batch) (pending : List Fragment)
      → All (IsBatch limit) batches
      → length (patch_bytes pending) ≤ limit
      → All (IsBatch limit) (flush_pending batch_id batches pending)
  unfolding make_batch
  flush_pending-batches batches [] h k = h
  flush_pending-batches batches (f ∷ fs) h k =
      All-append (IsBatch limit) batches (make_batch batch_id (f ∷ fs) ∷ []) h
        ((record { short = k; some_fragment = λ e. cc }, tt))

  flush_pending-packed :
      (batches : List Batch) (pending : List Fragment)
      → batch_fragments (flush_pending batch_id batches pending)
        ≡ batch_fragments batches ++ fragment_ids pending
  unfolding make_batch
  flush_pending-packed batches [] = sym (append-nil (batch_fragments batches))
  flush_pending-packed batches (f ∷ fs) =
      batch_fragments-append batches (make_batch batch_id (f ∷ fs) ∷ [])
      ∙ ap (λ t. batch_fragments batches ++ t) (append-nil (fragment_ids (f ∷ fs)))

  start_batch-IsPacking :
      (p : Packing) → IsPacking limit p → IsPacking limit (start_batch batch_id p)
  unfolding flush
  start_batch-IsPacking p h = record {
    bytes_ok = refl;
    room = omega arith;
    batches_ok =
        flush_pending-batches p.batches p.pending h.batches_ok (omega (arith, h.bytes_ok, h.room));
  }

  start_batch-packed : (p : Packing) → packed (start_batch batch_id p) ≡ packed p
  unfolding flush
  start_batch-packed p = append-nil _ ∙ flush_pending-packed p.batches p.pending

  push_fragment-IsPacking :
      (p : Packing) (f : Fragment)
      → IsPacking limit p
      → p.pending_bytes + length f.patch ≤ limit
      → IsPacking limit (push_fragment batch_id p f)
  unfolding push_fragment
  push_fragment-IsPacking p f h k = record {
    bytes_ok = omega (
      arith,
      h.bytes_ok,
      ap length (patch_bytes-append p.pending (f ∷ [])),
      length-append (patch_bytes p.pending) (patch_bytes (f ∷ [])),
      length-append f.patch [],
    );
    room = k;
    batches_ok = h.batches_ok;
  }

  push_fragment-packed :
      (p : Packing) (f : Fragment) → packed (push_fragment batch_id p f) ≡ packed p ++ f.id ∷ []
  unfolding push_fragment
  push_fragment-packed p f =
      ap (λ t. batch_fragments p.batches ++ t) (fragment_ids-append p.pending (f ∷ []))
      ∙ sym (append_assoc (batch_fragments p.batches) (fragment_ids p.pending) (f.id ∷ []))

  pack_fragment-IsPacking :
      (p : Packing) (f : Fragment)
      → IsPacking limit p
      → Within limit f
      → IsPacking limit (pack_fragment batch_id limit p f)
  unfolding pack_fragment
  pack_fragment-IsPacking p f h k =
      elim (Bool-cases (ltb limit (p.pending_bytes + length f.patch))) [
        | inl e ↦ rw e (
            push_fragment-IsPacking (start_batch batch_id p) f (start_batch-IsPacking p h)
              (omega (arith, k)))
        | inr e ↦ rw e (push_fragment-IsPacking p f h (ltb-false _ _ e))
      ]

  pack_fragment-packed :
      (p : Packing) (f : Fragment)
      → packed (pack_fragment batch_id limit p f) ≡ packed p ++ f.id ∷ []
  unfolding pack_fragment
  pack_fragment-packed p f = elim (Bool-cases (ltb limit (p.pending_bytes + length f.patch))) [
    | inl e ↦ rw e (
        push_fragment-packed (start_batch batch_id p) f
        ∙ ap (λ t. t ++ f.id ∷ []) (start_batch-packed p))
    | inr e ↦ rw e (push_fragment-packed p f)
  ]

  pack_fragments-IsPacking :
      (fs : List Fragment) (p : Packing)
      → IsPacking limit p
      → All (Within limit) fs
      → IsPacking limit (pack_fragments batch_id limit fs p)
  unfolding pack_fragments
  pack_fragments-IsPacking [] p h k = h
  pack_fragments-IsPacking (f ∷ fs) p h k =
      pack_fragments-IsPacking fs (pack_fragment batch_id limit p f)
        (pack_fragment-IsPacking p f h k.0) k.1

  pack_fragments-packed :
      (fs : List Fragment) (p : Packing)
      → packed (pack_fragments batch_id limit fs p) ≡ packed p ++ fragment_ids fs
  unfolding pack_fragments
  pack_fragments-packed [] p = sym (append-nil (packed p))
  pack_fragments-packed (f ∷ fs) p =
      pack_fragments-packed fs (pack_fragment batch_id limit p f)
      ∙ ap (λ t. t ++ fragment_ids fs) (pack_fragment-packed p f)
      ∙ append_assoc (packed p) (f.id ∷ []) (fragment_ids fs)

  pack_group-IsPacking :
      (group : List Fragment) (p : Packing)
      → IsPacking limit p
      → All (Within limit) group
      → IsPacking limit (pack_group batch_id limit group p)
  unfolding pack_group
  pack_group-IsPacking group p h k =
      elim (Bool-cases
        (leb (group_size group) limit && ltb limit (p.pending_bytes + group_size group))) [
          | inl e ↦ rw e (
              pack_fragments-IsPacking group (start_batch batch_id p) (start_batch-IsPacking p h) k)
          | inr e ↦ rw e (pack_fragments-IsPacking group p h k)
        ]

  pack_group-packed :
      (group : List Fragment) (p : Packing)
      → packed (pack_group batch_id limit group p) ≡ packed p ++ fragment_ids group
  unfolding pack_group
  pack_group-packed group p =
      elim (Bool-cases
        (leb (group_size group) limit && ltb limit (p.pending_bytes + group_size group))) [
          | inl e ↦ rw e (
              pack_fragments-packed group (start_batch batch_id p)
              ∙ ap (λ t. t ++ fragment_ids group) (start_batch-packed p))
          | inr e ↦ rw e (pack_fragments-packed group p)
        ]

  pack_groups-IsPacking :
      (groups : List (Bytes × List Fragment)) (p : Packing)
      → IsPacking limit p
      → AllWithin limit groups
      → IsPacking limit (pack_groups batch_id limit groups p)
  unfolding pack_groups
  pack_groups-IsPacking [] p h k = h
  pack_groups-IsPacking ((key, group) ∷ rest) p h k =
      pack_groups-IsPacking rest (pack_group batch_id limit group p)
        (pack_group-IsPacking group p h k.0) k.1

  pack_groups-packed :
      (groups : List (Bytes × List Fragment)) (p : Packing)
      → packed (pack_groups batch_id limit groups p)
        ≡ packed p ++ fragment_ids (group_fragments groups)
  unfolding pack_groups
  pack_groups-packed [] p = sym (append-nil (packed p))
  pack_groups-packed ((key, group) ∷ rest) p =
      pack_groups-packed rest (pack_group batch_id limit group p)
      ∙ ap (λ t. t ++ fragment_ids (group_fragments rest)) (pack_group-packed group p)
      ∙ append_assoc (packed p) (fragment_ids group) (fragment_ids (group_fragments rest))
      ∙ ap (λ t. packed p ++ t) (sym (fragment_ids-append group (group_fragments rest)))

  -- Every batch has a fragment, and its patch is within the limit.
  pub pack-IsBatch :
      (groups : List (Bytes × List Fragment))
      → AllWithin limit (sort_by_key groups)
      → All (IsBatch limit) (pack batch_id limit groups)
  unfolding pack
  pack-IsBatch groups k =
      let start : IsPacking limit (nothing_packed batch_id) = record {
        bytes_ok = refl;
        room = omega arith;
        batches_ok = tt;
      } in
      (start_batch-IsPacking
        (pack_groups batch_id limit (sort_by_key groups) (nothing_packed batch_id))
        (pack_groups-IsPacking (sort_by_key groups) (nothing_packed batch_id) start k)).batches_ok

  -- The batches hold the groups' fragments, in order.
  pub pack-fragments :
      (groups : List (Bytes × List Fragment))
      → batch_fragments (pack batch_id limit groups)
        ≡ fragment_ids (group_fragments (sort_by_key groups))
  unfolding pack
  pack-fragments groups =
      let p = pack_groups batch_id limit (sort_by_key groups) (nothing_packed batch_id) in
      flush_pending-packed p.batches p.pending
      ∙ pack_groups-packed (sort_by_key groups) (nothing_packed batch_id)

  pack_fragment-room :
      (p : Packing) (f : Fragment)
      → p.pending_bytes + length f.patch ≤ limit
      → pack_fragment batch_id limit p f ≡ push_fragment batch_id p f
  unfolding pack_fragment
  pack_fragment-room p f h =
      let no_flush : ltb limit (p.pending_bytes + length f.patch) ≡ false = ground arith in
      rw no_flush

  pack_fragments-pending :
      (fs : List Fragment) (p : Packing)
      → p.pending_bytes + group_size fs ≤ limit
      → (pack_fragments batch_id limit fs p).pending ≡ p.pending ++ fs
  unfolding pack_fragments push_fragment
  pack_fragments-pending [] p h = sym (append-nil p.pending)
  pack_fragments-pending (f ∷ fs) p h =
      ap (λ (q : Packing). (pack_fragments batch_id limit fs q).pending)
        (pack_fragment-room p f (omega arith))
      ∙ pack_fragments-pending fs (push_fragment batch_id p f) (omega arith)
      ∙ append_assoc p.pending (f ∷ []) fs

  -- A related group whose patches together fit the batch limit is pending as a whole once it is
  -- packed.
  pub pack_group-whole :
      (group : List Fragment) (p : Packing)
      → group_size group ≤ limit
      → (before : List Fragment) × ((pack_group batch_id limit group p).pending ≡ before ++ group)
  unfolding pack_group flush
  pack_group-whole group p h = elim (Bool-cases (ltb limit (p.pending_bytes + group_size group))) [
    | inl e ↦
        let fits : leb (group_size group) limit ≡ true = ground arith in
        (
          [],
          rw (fits, e) (pack_fragments-pending group (start_batch batch_id p) (omega (arith, h))),
        )
    | inr e ↦
        let fits : leb (group_size group) limit ≡ true = ground arith in
        (
          p.pending,
          rw (fits, e)
              (pack_fragments-pending group p
                (ltb-false limit (p.pending_bytes + group_size group) e)),
        )
  ]
