-- ===== src/ReviewBatch/Split/Covers.antt =====
-- The fragments of a hunk, laid end to end.
use mathlib.Core.Path.{subst, subst₂}
use software_factory_templat.Base.{
  ℕ, zero, suc, ◌+◌, ◌≤◌, false, List, [], ◌∷◌, ◌++◌, ltb, Bytes, length, length-append, ◌≡◌, refl,
  sym, ap, ◌∙◌, arith, Bool-cases, inl, inr, append-nil, append_assoc, ok, eq_of_ok,
}
use software_factory_templat.Base.Rows.{join_rows}
use software_factory_templat.ReviewBatch.Types.{Fragment}
use software_factory_templat.ReviewBatch.Split.{
  Chunk, fill, is_empty, range_line, add, chunk_patch, split_hunk,
}
use software_factory_templat.ReviewBatch.Split.Chunks.{
  old_count, new_count, IsChunk, fill-IsChunk, fill-is_empty, first_bytes,
}

fit-ltb : (a b : ℕ) → a ≤ b → ltb b a ≡ false
fit-ltb a b h = ground arith

module _ (digest : Bytes → Bytes) (path header : Bytes) (limit : ℕ) where
  -- A fragment of the given lines, at the given coordinates.
  pub record IsPiece (old_start new_start index : ℕ) (taken : List Bytes) (f : Fragment)
      : Type 0 where
    pub path_ok : f.path ≡ path
    pub id_ok : f.id ≡ digest f.patch
    pub index_ok : f.index ≡ index + 1
    pub old_at : f.old_start ≡ old_start
    pub new_at : f.new_start ≡ new_start
    pub old_counted : f.old_lines ≡ old_count taken
    pub new_counted : f.new_lines ≡ new_count taken
    pub patch_ok :
        f.patch
        ≡ header
          ++ (range_line old_start (old_count taken) new_start (new_count taken) ++ join_rows taken)
    pub room : length header + 128 + length (join_rows taken) ≤ limit

  -- The fragments take all the lines, in order, each from where the one before it ended.
  pub data Covers : ℕ → ℕ → ℕ → List Bytes → List Fragment → Type 0 where
    done : {o n i : ℕ} → Covers o n i [] []
    piece :
        {o n i : ℕ} {lines : List Bytes} {f : Fragment} {fs : List Fragment}
        (taken rest : List Bytes)
        → taken ++ rest ≡ lines
        → is_empty taken ≡ false
        → IsPiece o n i taken f
        → Covers (o + old_count taken) (n + new_count taken) (suc i) rest fs
        → Covers o n i lines (f ∷ fs)

  moved :
      {o o' n n' i i' : ℕ} {lines : List Bytes} {fs : List Fragment}
      → o ≡ o'
      → n ≡ n'
      → i ≡ i'
      → Covers o n i lines fs
      → Covers o' n' i' lines fs
  moved {o = o} {n = n} {i' = i'} {lines = lines} {fs = fs} p q r c =
      subst₂ (λ a b. Covers a b i' lines fs) p q (subst (λ k. Covers o n k lines fs) r c)

  module _ (base_ok : length header + 128 ≤ limit) where
    abbrev chunk : List Bytes → Chunk
    chunk lines = fill limit (length header + 128) lines

    abbrev made : ℕ → ℕ → ℕ → Chunk → Fragment
    made o n i c = record {
      id = digest (chunk_patch digest header o n c);
      path = path;
      index = i + 1;
      old_start = o;
      old_lines = c.old;
      new_start = n;
      new_lines = c.current;
      patch = chunk_patch digest header o n c;
    }

    made-IsPiece :
        (o n i : ℕ) (lines : List Bytes) (c : Chunk)
        → IsChunk limit (length header + 128) lines c
        → IsPiece o n i c.taken (made o n i c)
    made-IsPiece o n i lines c h = record {
      path_ok = refl;
      id_ok = refl;
      index_ok = refl;
      old_at = refl;
      new_at = refl;
      old_counted = h.old_ok;
      new_counted = h.new_ok;
      patch_ok =
          ap (λ (k : ℕ). header ++ (range_line o k n c.current ++ join_rows c.taken)) h.old_ok
          ∙ ap (λ (k : ℕ). header ++ (range_line o (old_count c.taken) n k ++ join_rows c.taken))
              h.new_ok;
      room = h.fits base_ok;
    }

    -- If the metadata fits the limit and split_hunk succeeds, what it adds to the fragments takes
    -- all the lines of the hunk in order, none empty, each piece with the line counts of its own
    -- lines, starting where the one before it ended, with the patch text and digest of just its
    -- lines, which fit the limit beside the metadata.
    pub split_hunk-Covers :
        (fuel o n : ℕ) (lines : List Bytes) (result r : List Fragment)
        → split_hunk digest fuel path header limit o n lines result ≡ ok r
        → (fs : List Fragment) × (r ≡ result ++ fs) × Covers o n (length result) lines fs
    unfolding split_hunk add
    split_hunk-Covers fuel o n [] result r h =
        ([], sym (eq_of_ok h) ∙ sym (append-nil result), done)
    split_hunk-Covers zero o n (line ∷ lines) result r h = cc
    split_hunk-Covers (suc fuel) o n (line ∷ lines) result r h =
        elim (Bool-cases (is_empty (chunk (line ∷ lines)).taken)) [
          | inl e ↦ cc (rw e at h)
          | inr e ↦
              let c = chunk (line ∷ lines) in
              let f = made o n (length result) c in
              let good = fill-IsChunk limit (length header + 128) (line ∷ lines) in
              let (fs, same, rest) =
                split_hunk-Covers fuel (o + c.old) (n + c.current) c.rest (result ++ f ∷ []) r
                  (rw e at h) in
              (
                f ∷ fs,
                same ∙ append_assoc result (f ∷ []) fs,
                piece c.taken c.rest good.whole e
                    (made-IsPiece o n (length result) (line ∷ lines) c good)
                    (moved (ap (λ (k : ℕ). o + k) good.old_ok) (ap (λ (k : ℕ). n + k) good.new_ok)
                      (length-append result (f ∷ []) ∙ omega arith) rest),
              )
        ]

    -- Each line, with the marker behind it, fits beside the metadata.
    abbrev pub AllFit : List Bytes → Type 0
    AllFit [] = Unit
    AllFit (line ∷ more) = (length header + 128 + first_bytes (line ∷ more) ≤ limit) × AllFit more

    AllFit-rest :
        (taken rest lines : List Bytes) → taken ++ rest ≡ lines → AllFit lines → AllFit rest
    AllFit-rest [] rest lines e h = subst AllFit (sym e) h
    AllFit-rest (x ∷ xs) rest [] e h = cc
    AllFit-rest (x ∷ xs) rest (l ∷ ls) e h = AllFit-rest xs rest ls (cc) h.1

    taken_some :
        (taken rest : List Bytes) (line : Bytes) (lines : List Bytes)
        → taken ++ rest ≡ line ∷ lines
        → is_empty taken ≡ false
        → length rest ≤ length lines
    taken_some [] rest line lines e h = cc
    taken_some (x ∷ xs) rest line lines e h = omega (arith, length-append xs rest, ap length e)

    -- If the metadata fits the limit, the rounds are as many as the lines at least, and each line
    -- with the marker behind it fits beside the metadata, splitting a hunk succeeds.
    pub split_hunk_total :
        (fuel o n : ℕ) (lines : List Bytes) (result : List Fragment)
        → length lines ≤ fuel
        → AllFit lines
        → (r : List Fragment) × (split_hunk digest fuel path header limit o n lines result ≡ ok r)
    unfolding split_hunk
    split_hunk_total fuel o n [] result k h = (result, refl)
    split_hunk_total zero o n (line ∷ lines) result k h = absurd (omega arith)
    split_hunk_total (suc fuel) o n (line ∷ lines) result k h =
        let c = chunk (line ∷ lines) in
        let good = fill-IsChunk limit (length header + 128) (line ∷ lines) in
        let some_taken : is_empty c.taken ≡ false =
          fill-is_empty limit (length header + 128) line lines ∙ fit-ltb _ _ h.0 in
        let (r, e) =
          split_hunk_total fuel (o + c.old) (n + c.current) c.rest
            (add digest path result (chunk_patch digest header o n c) o c.old n c.current)
            (omega (arith, taken_some c.taken c.rest line lines good.whole some_taken))
            (AllFit-rest c.taken c.rest (line ∷ lines) good.whole h) in
        (r, rw some_taken e)
