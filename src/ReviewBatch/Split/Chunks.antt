-- ===== src/ReviewBatch/Split/Chunks.antt =====
-- The inner loop of splitFile: what one chunk takes.
use software_factory_templat.Base.{
  ℕ, ◌+◌, ◌≤◌, true, false, List, [], ◌∷◌, ◌++◌, ltb, if◌then◌else◌, Bytes, bytes_eq, bytes_eq_iff,
  length, length-append, ◌≡◌, refl, ap, arith, Bool-cases, inl, inr, ltb-false,
}
use software_factory_templat.Base.Rows.{join_rows}
use software_factory_templat.ReviewBatch.Split.{
  no_newline, old_line, new_line, Chunk, stop, take_line, take_pair, fill, is_empty,
}

-- Lines of the old and of the new file.
abbrev pub old_count : List Bytes → ℕ
old_count [] = 0
old_count (l ∷ ls) = old_line l + old_count ls

abbrev pub new_count : List Bytes → ℕ
new_count [] = 0
new_count (l ∷ ls) = new_line l + new_count ls

-- A chunk of the lines: in order, counted, and within the limit.
pub record IsChunk (limit size : ℕ) (lines : List Bytes) (c : Chunk) : Type 0 where
  pub whole : c.taken ++ c.rest ≡ lines
  pub old_ok : c.old ≡ old_count c.taken
  pub new_ok : c.current ≡ new_count c.taken
  pub fits : size ≤ limit → size + length (join_rows c.taken) ≤ limit

stop-IsChunk : (limit size : ℕ) (lines : List Bytes) → IsChunk limit size lines (stop lines)
stop-IsChunk limit size lines = record {
  whole = refl;
  old_ok = refl;
  new_ok = refl;
  fits = λ h. omega arith;
}

take_line-IsChunk :
    (limit size : ℕ) (line : Bytes) (lines : List Bytes) (c : Chunk)
    → ltb limit (size + (length line + 1)) ≡ false
    → IsChunk limit (size + (length line + 1)) lines c
    → IsChunk limit size (line ∷ lines) (take_line line c)
take_line-IsChunk limit size line lines c room h = record {
  whole = ap (λ t. line ∷ t) h.whole;
  old_ok = omega (arith, h.old_ok);
  new_ok = omega (arith, h.new_ok);
  fits = λ k. omega (
    arith,
    length-append line (b'\n' ∷ join_rows c.taken),
    h.fits (ltb-false limit (size + (length line + 1)) room),
  );
}

take_pair-IsChunk :
    (limit size : ℕ) (line next : Bytes) (lines : List Bytes) (c : Chunk)
    → bytes_eq next no_newline ≡ true
    → ltb limit (size + (length line + 1 + (length next + 1))) ≡ false
    → IsChunk limit (size + (length line + 1 + (length next + 1))) lines c
    → IsChunk limit size (line ∷ next ∷ lines) (take_pair line next c)
take_pair-IsChunk limit size line next lines c marker room h =
    let same = (bytes_eq_iff next no_newline).0 marker in
    record {
      whole = ap (λ t. line ∷ next ∷ t) h.whole;
      old_ok = omega (arith, h.old_ok, ap old_line same);
      new_ok = omega (arith, h.new_ok, ap new_line same);
      fits = λ k. omega (
        arith,
        length-append line (b'\n' ∷ (next ++ (b'\n' ∷ join_rows c.taken))),
        length-append next (b'\n' ∷ join_rows c.taken),
        h.fits (ltb-false limit (size + (length line + 1 + (length next + 1))) room),
      );
    }

-- Every chunk of the inner loop is one.
pub fill-IsChunk :
    (limit size : ℕ) (lines : List Bytes) → IsChunk limit size lines (fill limit size lines)
unfolding fill
fill-IsChunk limit size [] = stop-IsChunk limit size []
fill-IsChunk limit size (line ∷ []) = elim (Bool-cases (ltb limit (size + (length line + 1)))) [
  | inl e ↦ rw e (stop-IsChunk limit size (line ∷ []))
  | inr e ↦ rw e (
      take_line-IsChunk limit size line [] (stop []) e
        (stop-IsChunk limit (size + (length line + 1)) []))
]
fill-IsChunk limit size (line ∷ next ∷ more) = elim (Bool-cases (bytes_eq next no_newline)) [
  | inl m ↦ elim (Bool-cases (ltb limit (size + (length line + 1 + (length next + 1))))) [
    | inl e ↦ rw (m, e) (stop-IsChunk limit size (line ∷ next ∷ more))
    | inr e ↦
        rw (m, e)
          (take_pair-IsChunk limit size line next more
            (fill limit (size + (length line + 1 + (length next + 1))) more) m e
            (fill-IsChunk limit (size + (length line + 1 + (length next + 1))) more))
  ]
  | inr m ↦ elim (Bool-cases (ltb limit (size + (length line + 1)))) [
    | inl e ↦ rw (m, e) (stop-IsChunk limit size (line ∷ next ∷ more))
    | inr e ↦
        rw (m, e)
          (take_line-IsChunk limit size line (next ∷ more)
            (fill limit (size + (length line + 1)) (next ∷ more)) e
            (fill-IsChunk limit (size + (length line + 1)) (next ∷ more)))
  ]
]

-- Bytes that the first line wants, with the marker behind it.
abbrev pub marker_bytes : List Bytes → ℕ
marker_bytes [] = 0
marker_bytes (next ∷ more) = if bytes_eq next no_newline then length next + 1 else 0

abbrev pub first_bytes : List Bytes → ℕ
first_bytes [] = 0
first_bytes (line ∷ more) = length line + 1 + marker_bytes more

-- A chunk is empty exactly if its first line does not fit.
pub fill-is_empty :
    (limit size : ℕ) (line : Bytes) (more : List Bytes)
    → is_empty (fill limit size (line ∷ more)).taken ≡ ltb limit (size + first_bytes (line ∷ more))
unfolding fill
fill-is_empty limit size line [] = ground arith
fill-is_empty limit size line (next ∷ more) = ground arith
