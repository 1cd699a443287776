-- ===== src/ReviewBatch/Plan.antt =====
-- plan.go, makePlan: the fragments of all files, grouped by related file names and packed into
-- batches. `digest` and `marshal` (json.Marshal of a list of strings) are Go's library's; the two
-- JSON texts that makePlan digests, the policy and the changed-file manifest, are arguments.
pub mod Packed
pub mod Whole
pub mod Bounded
use software_factory_templat.Base.{
  ℕ, zero, suc, ◌+◌, Bool, true, false, ◌&&◌, ◌||◌, Option, none, some, String, List, [], ◌∷◌, ◌++◌,
  map, ◌==◌, ltb, leb, if◌then◌else◌, Bytes, bytes_eq, codes, length, Result, ok, err,
}
use software_factory_templat.Base.Assoc.{lookup, insert}
use software_factory_templat.Base.Order.{sort_by_key}
use software_factory_templat.Base.Paths.{base_name, extension, trim_suffix, trim_prefix}
use software_factory_templat.ReviewBatch.Types.{
  Fragment, FileDiff, filename, Batch, FileCoverage, planned, unreviewed, unreviewable,
}
use software_factory_templat.ReviewBatch.Split.{split_file}

-- `relatedKey`
unfoldable pub related_key : Bytes → Bytes
unfolding base_name extension trim_suffix trim_prefix
related_key name =
    let stem = trim_suffix (base_name name) (extension name) in
    let bare =
      trim_suffix
        (trim_suffix (trim_suffix (trim_suffix stem (codes "_test")) (codes ".test"))
          (codes ".spec"))
        (codes "_spec") in
    trim_prefix bare (codes "test_")

-- What the loop over the files gathers.
pub record Gathered : Type 0 where
  pub fragments : List Fragment
  pub files : List FileCoverage
  pub groups : List (Bytes × List Fragment)

abbrev pub group_or_empty : Option (List Fragment) → List Fragment
group_or_empty none = []
group_or_empty (some g) = g

-- `groups[key] = append(groups[key], f)`
unfoldable pub add_to_group : Fragment → List (Bytes × List Fragment) → List (Bytes × List Fragment)
unfolding related_key lookup insert
add_to_group f groups =
    insert (related_key f.path) (group_or_empty (lookup (related_key f.path) groups) ++ f ∷ [])
      groups

unfoldable pub add_fragments : List Fragment → Gathered → Gathered
unfolding add_to_group
add_fragments [] g = g
add_fragments (f ∷ fs) g =
    add_fragments fs
      (record g { fragments = g.fragments ++ f ∷ []; groups = add_to_group f g.groups })

abbrev pub fragment_ids : List Fragment → List Bytes
fragment_ids [] = []
fragment_ids (f ∷ fs) = f.id ∷ fragment_ids fs

-- `coverage`, and the fragments that `splitFile` returns beside a reason are none.
unfoldable pub gather_file : Bytes → Result (List Fragment) → Gathered → Gathered
unfolding add_fragments
gather_file name (ok fs) g =
    let h = add_fragments fs g in
    record h {
      files =
          h.files
          ++ (record { path = name; status = unreviewed; fragments = fragment_ids fs; error = none }
              ∷ []);
    }
gather_file name (err reason) g = record g {
  files =
      g.files
      ++ (record { path = name; status = unreviewable; fragments = []; error = some reason } ∷ []);
}

abbrev pub nothing_gathered : Gathered
nothing_gathered = record { fragments = []; files = []; groups = [] }

abbrev pub patch_bytes : List Fragment → Bytes
patch_bytes [] = []
patch_bytes (f ∷ fs) = f.patch ++ patch_bytes fs

-- `size`
abbrev pub group_size : List Fragment → ℕ
group_size [] = 0
group_size (f ∷ fs) = length f.patch + group_size fs

unfoldable pub contains : Bytes → List Bytes → Bool
contains x [] = false
contains x (y ∷ ys) = bytes_eq y x || contains x ys

-- `b.Files`: each path once, in the order of its first fragment.
unfoldable pub batch_files : List Fragment → List Bytes → List Bytes
unfolding contains
batch_files [] seen = seen
batch_files (f ∷ fs) seen =
    batch_files fs (if contains f.path seen then seen else seen ++ f.path ∷ [])

-- The variables that `flush` works on.
pub record Packing : Type 0 where
  pub batches : List Batch
  pub pending : List Fragment
  pub pending_bytes : ℕ

module _ (batch_id : Bytes → Bytes) where
  unfoldable pub make_batch : List Fragment → Batch
  unfolding batch_files
  make_batch pending = record {
    id = batch_id (patch_bytes pending);
    files = batch_files pending [];
    fragments = fragment_ids pending;
    status = planned;
    cached = false;
    findings = [];
    error = none;
    patch = patch_bytes pending;
  }

  abbrev pub flush_pending : List Batch → List Fragment → List Batch
  flush_pending batches [] = batches
  flush_pending batches (f ∷ fs) = batches ++ make_batch (f ∷ fs) ∷ []

  -- The closure `flush`.
  unfoldable pub flush : Packing → Packing
  unfolding make_batch
  flush p = record p { batches = flush_pending p.batches p.pending; pending = [] }

  -- `flush()` and `pendingBytes = 0`
  abbrev pub start_batch : Packing → Packing
  start_batch p = record (flush p) { pending_bytes = 0 }

  unfoldable pub push_fragment : Packing → Fragment → Packing
  push_fragment p f = record p {
    pending = p.pending ++ f ∷ [];
    pending_bytes = p.pending_bytes + length f.patch;
  }

  unfoldable pub pack_fragment : ℕ → Packing → Fragment → Packing
  unfolding flush push_fragment
  pack_fragment limit p f =
      push_fragment (if ltb limit (p.pending_bytes + length f.patch) then start_batch p else p) f

  unfoldable pub pack_fragments : ℕ → List Fragment → Packing → Packing
  unfolding pack_fragment
  pack_fragments limit [] p = p
  pack_fragments limit (f ∷ fs) p = pack_fragments limit fs (pack_fragment limit p f)

  -- A related group that fits starts a new batch rather than be cut.
  unfoldable pub pack_group : ℕ → List Fragment → Packing → Packing
  unfolding pack_fragments flush
  pack_group limit group p = pack_fragments limit group (
      if leb (group_size group) limit && ltb limit (p.pending_bytes + group_size group)
      then start_batch p
      else p)

  unfoldable pub pack_groups : ℕ → List (Bytes × List Fragment) → Packing → Packing
  unfolding pack_group
  pack_groups limit [] p = p
  pack_groups limit ((key, group) ∷ rest) p = pack_groups limit rest (pack_group limit group p)

  abbrev pub nothing_packed : Packing
  nothing_packed = record { batches = []; pending = []; pending_bytes = 0 }

  -- The batches of the sorted groups, the last flush included.
  unfoldable pub pack : ℕ → List (Bytes × List Fragment) → List Batch
  unfolding pack_groups flush sort_by_key
  pack limit groups = (flush (pack_groups limit (sort_by_key groups) nothing_packed)).batches

-- `Counts` of a new plan.
pub record Planned : Type 0 where
  pub policy_digest : Bytes
  pub context_digest : Bytes
  pub batches : List Batch
  pub files : List FileCoverage
  pub fragments : List Fragment
  pub files_total : ℕ
  pub fragments_total : ℕ
  pub batches_planned : ℕ

module _ (digest : Bytes → Bytes) (marshal : List Bytes → Bytes) where
  unfoldable pub gather : List FileDiff → ℕ → Gathered → Gathered
  unfolding gather_file split_file
  gather [] limit g = g
  gather (d ∷ ds) limit g = gather ds limit (gather_file (filename d) (split_file digest d limit) g)

  abbrev pub batch_identity : Bytes → Bytes → Bytes → Bytes → Bytes → Bytes
  batch_identity repository base policy_digest context_digest patch =
      digest (marshal (repository ∷ base ∷ policy_digest ∷ context_digest ∷ patch ∷ []))

  unfoldable pub make_plan :
      (repository base policy_json shared : Bytes) (batch_bytes : ℕ) → List FileDiff → Planned
  unfolding gather pack
  make_plan repository base policy_json shared batch_bytes diffs =
      let g = gather diffs batch_bytes nothing_gathered in
      let batches =
        pack (batch_identity repository base (digest policy_json) (digest shared)) batch_bytes
          g.groups in
      record {
        policy_digest = digest policy_json;
        context_digest = digest shared;
        batches = batches;
        files = g.files;
        fragments = g.fragments;
        files_total = length g.files;
        fragments_total = length g.fragments;
        batches_planned = length batches;
      }
