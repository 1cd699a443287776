-- ===== src/ReviewBatch/Split.antt =====
-- plan.go, splitFile: each hunk is cut into fragments whose patch text stays within the limit.
-- `digest` is the hex SHA-256 of the patch, of Go's library.
pub mod Chunks
pub mod Covers
pub mod Bounds
use software_factory_templat.Base.{
  ℕ, zero, suc, ◌+◌, Bool, true, false, ◌||◌, Option, none, some, List, [], ◌∷◌, ◌++◌, ◌==◌, ltb,
  if◌then◌else◌, Bytes, bytes_eq, codes, length, Result, ok, err, ◌>>=◌,
}
use software_factory_templat.Base.Decimal.{decimal}
use software_factory_templat.Base.Rows.{join_rows}
use software_factory_templat.ReviewBatch.Types.{
  Fragment, Hunk, FileDiff, file_diff, Parts, nil, cons,
}

abbrev pub no_newline : Bytes
no_newline = codes "\\ No newline at end of file"

-- The first byte of a line; the parser refuses an empty hunk line.
abbrev pub starts : ℕ → Bytes → Bool
starts c [] = false
starts c (x ∷ xs) = x == c

abbrev pub one_if : Bool → ℕ
one_if true = 1
one_if false = 0

abbrev pub old_line : Bytes → ℕ
old_line line = one_if (starts b' ' line || starts b'-' line)

abbrev pub new_line : Bytes → ℕ
new_line line = one_if (starts b' ' line || starts b'+' line)

-- What one round of the outer loop takes, and what it leaves.
pub record Chunk : Type 0 where
  pub taken : List Bytes
  pub old : ℕ
  pub current : ℕ
  pub rest : List Bytes

abbrev pub stop : List Bytes → Chunk
stop rest = record { taken = []; old = 0; current = 0; rest = rest }

abbrev pub take_line : Bytes → Chunk → Chunk
take_line line c = record c {
  taken = line ∷ c.taken;
  old = old_line line + c.old;
  current = new_line line + c.current;
}

-- The line and the marker behind it, which is counted nowhere.
abbrev pub take_pair : Bytes → Bytes → Chunk → Chunk
take_pair line marker c = record c {
  taken = line ∷ marker ∷ c.taken;
  old = old_line line + c.old;
  current = new_line line + c.current;
}

-- The inner loop.
unfoldable pub fill : ℕ → ℕ → List Bytes → Chunk
fill limit size [] = stop []
fill limit size (line ∷ []) =
    if ltb limit (size + (length line + 1)) then stop (line ∷ []) else take_line line (stop [])
fill limit size (line ∷ next ∷ more) =
    let both =
      take_pair line next (fill limit (size + (length line + 1 + (length next + 1))) more) in
    let one = take_line line (fill limit (size + (length line + 1)) (next ∷ more)) in
    if bytes_eq next no_newline
    then if ltb limit (size + (length line + 1 + (length next + 1)))
      then stop (line ∷ next ∷ more)
      else both
    else if ltb limit (size + (length line + 1))
    then stop (line ∷ next ∷ more)
    else one

-- `@@ -%d,%d +%d,%d @@\n`
unfoldable pub range_line : ℕ → ℕ → ℕ → ℕ → Bytes
unfolding decimal
range_line old_start old new_start current =
    codes "@@ -"
    ++ (decimal old_start
        ++ (b','
            ∷ (decimal old
                ++ (codes " +"
                    ++ (decimal new_start ++ (b',' ∷ (decimal current ++ codes " @@\n")))))))

abbrev pub is_empty : List Bytes → Bool
is_empty [] = true
is_empty (x ∷ xs) = false

module _ (digest : Bytes → Bytes) where
  -- The closure `add`, on the fragments so far.
  unfoldable pub add : Bytes → List Fragment → Bytes → ℕ → ℕ → ℕ → ℕ → List Fragment
  add path result patch old_start old new_start current =
      result
      ++ (record {
        id = digest patch;
        path = path;
        index = length result + 1;
        old_start = old_start;
        old_lines = old;
        new_start = new_start;
        new_lines = current;
        patch = patch;
      }
          ∷ [])

  abbrev pub chunk_patch : Bytes → ℕ → ℕ → Chunk → Bytes
  chunk_patch header old_start new_start c =
      header ++ (range_line old_start c.old new_start c.current ++ join_rows c.taken)

  -- The loop over one hunk. Each round takes a line at least, so as many rounds as lines are enough.
  unfoldable pub split_hunk :
      ℕ → Bytes → Bytes → ℕ → ℕ → ℕ → List Bytes → List Fragment → Result (List Fragment)
  unfolding fill add
  split_hunk fuel path header limit old_start new_start [] result = ok result
  split_hunk zero path header limit old_start new_start (line ∷ lines) result = err "no rounds left"
  split_hunk (suc fuel) path header limit old_start new_start (line ∷ lines) result =
      let c = fill limit (length header + 128) (line ∷ lines) in
      let more =
        split_hunk fuel path header limit (old_start + c.old) (new_start + c.current) c.rest (
          add path result (chunk_patch header old_start new_start c) old_start c.old new_start
            c.current) in
      if is_empty c.taken then err "a single diff line exceeds the batch patch limit" else more

  unfoldable pub split_hunks :
      Bytes → Bytes → ℕ → List Hunk → List Fragment → Result (List Fragment)
  unfolding split_hunk
  split_hunks path header limit [] result = ok result
  split_hunks path header limit (h ∷ hs) result = do
    done ← split_hunk (length h.lines) path header limit h.old_start h.new_start h.lines result
    split_hunks path header limit hs done

  -- A file with no hunk is one fragment, its metadata.
  unfoldable pub first_fragments : Bytes → Bytes → List Hunk → List Fragment
  unfolding add
  first_fragments path header [] = add path [] header 0 0 0 0
  first_fragments path header (h ∷ hs) = []

  unfoldable pub split_text : Bytes → Bytes → List Hunk → ℕ → Result (List Fragment)
  unfolding split_hunks first_fragments
  split_text path header hunks limit =
      if ltb limit (length header + 128)
      then err "file metadata exceeds the batch patch limit"
      else split_hunks path header limit hunks (first_fragments path header hunks)

  -- `item.Index = len(fragments) + 1`
  unfoldable pub renumber : List Fragment → List Fragment → List Fragment
  renumber fragments [] = fragments
  renumber fragments (item ∷ items) =
      renumber (fragments ++ record item { index = length fragments + 1 } ∷ []) items

  unfoldable mutual
    unfolding split_text renumber

    pub split_file : FileDiff → ℕ → Result (List Fragment)
    split_file (file_diff name header hunks (some reason) parts) limit = err reason
    split_file (file_diff name header hunks none nil) limit = split_text name header hunks limit
    split_file (file_diff name header hunks none (cons part parts)) limit =
        split_parts (cons part parts) limit []

    pub split_parts : Parts → ℕ → List Fragment → Result (List Fragment)
    split_parts nil limit fragments = ok fragments
    split_parts (cons part parts) limit fragments = do
      items ← split_file part limit
      split_parts parts limit (renumber fragments items)
