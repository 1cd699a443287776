-- ===== src/ReviewBatch/Split/Bounds.antt =====
-- The patch text of a fragment stays within the limit: 128 bytes are enough for the range line.
use software_factory_templat.Base.{
  ℕ, ◌+◌, ◌^◌, ◌≤◌, ◌<◌, List, [], ◌∷◌, ◌++◌, Bytes, codes, length, length-append, All, ◌≡◌, ap,
  arith,
}
use software_factory_templat.Base.Decimal.{decimal, length-decimal}
use software_factory_templat.Base.Rows.{join_rows}
use software_factory_templat.ReviewBatch.Types.{Fragment}
use software_factory_templat.ReviewBatch.Split.{range_line}
use software_factory_templat.ReviewBatch.Split.Chunks.{old_count, new_count}
use software_factory_templat.ReviewBatch.Split.Covers.{Covers, done, piece}

-- Numbers of at most nineteen digits, which every `int` of the source is.
length-range_line :
    (a b c d : ℕ)
    → a < 10 ^ 19
    → b < 10 ^ 19
    → c < 10 ^ 19
    → d < 10 ^ 19
    → length (range_line a b c d) ≤ 128
unfolding range_line
length-range_line a b c d p q r s = omega (
  arith,
  length-decimal 18 a p,
  length-decimal 18 b q,
  length-decimal 18 c r,
  length-decimal 18 d s,
  length-append (decimal a)
      (b',' ∷ (decimal b ++ (codes " +" ++ (decimal c ++ (b',' ∷ (decimal d ++ codes " @@\n")))))),
  length-append (decimal b) (codes " +" ++ (decimal c ++ (b',' ∷ (decimal d ++ codes " @@\n")))),
  length-append (decimal c) (b',' ∷ (decimal d ++ codes " @@\n")),
  length-append (decimal d) (codes " @@\n"),
)

old_count-append : (a b : List Bytes) → old_count (a ++ b) ≡ old_count a + old_count b
old_count-append [] b = omega arith
old_count-append (x ∷ xs) b = omega (arith, old_count-append xs b)

new_count-append : (a b : List Bytes) → new_count (a ++ b) ≡ new_count a + new_count b
new_count-append [] b = omega arith
new_count-append (x ∷ xs) b = omega (arith, new_count-append xs b)

-- The fragment's patch is not longer than the batch limit.
abbrev pub Within : ℕ → Fragment → Type 0
Within limit f = length f.patch ≤ limit

module _ (digest : Bytes → Bytes) (path header : Bytes) (limit : ℕ) where
  pub Covers-Within :
      {o n i : ℕ} {lines : List Bytes} {fs : List Fragment}
      → Covers digest path header limit o n i lines fs
      → o + old_count lines < 10 ^ 19
      → n + new_count lines < 10 ^ 19
      → All (Within limit) fs
  Covers-Within done p q = tt
  Covers-Within {o} {n} {i} {lines} (piece {f = f} taken rest whole some_taken h more) p q =
      let old_total = ap old_count whole in
      let new_total = ap new_count whole in
      let olds = old_count-append taken rest in
      let news = new_count-append taken rest in
      (
        omega (
          arith,
          ap length h.patch_ok,
          h.room,
          length-range_line o (old_count taken) n (new_count taken) (omega arith) (omega arith)
              (omega arith) (omega arith),
          length-append header
              (range_line o (old_count taken) n (new_count taken) ++ join_rows taken),
          length-append (range_line o (old_count taken) n (new_count taken)) (join_rows taken),
        ),
        Covers-Within more (omega arith) (omega arith),
      )
