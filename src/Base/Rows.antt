-- ===== src/Base/Rows.antt =====
-- Physical lines. The loops of the source call `bytes.Cut(data, "\n")` until the rest is empty;
-- `split` is the list of what those calls return: the terminated rows and the last, unterminated one.
use Prim.Native.Nat.{ℕ}
use mathlib.Core.Path.{◌≡◌, refl, ap, ◌∙◌}
use mathlib.Core.Bool.{false}
use mathlib.Core.List.{List, [], ◌∷◌, ◌++◌, append_assoc}
use native.Mathlib.Omega.{arith}
use mathlib.Core.Logic.{inl, inr}
use software_factory_templat.Base.Tests.{◌==◌, if◌then◌else◌, Bool-cases}
use software_factory_templat.Base.Lists.{All}
use software_factory_templat.Base.Text.{Bytes, contains_byte}

abbrev pub push_byte : ℕ → List Bytes × Bytes → List Bytes × Bytes
push_byte c ([], rest) = ([], c ∷ rest)
push_byte c (r ∷ rs, rest) = ((c ∷ r) ∷ rs, rest)

abbrev pub end_row : List Bytes × Bytes → List Bytes × Bytes
end_row (rs, rest) = ([] ∷ rs, rest)

unfoldable pub split : Bytes → List Bytes × Bytes
split [] = ([], [])
split (c ∷ cs) = let s = split cs in if c == b'\n' then end_row s else push_byte c s

-- The rows, each with its newline.
abbrev pub join_rows : List Bytes → Bytes
join_rows [] = []
join_rows (r ∷ rs) = r ++ (b'\n' ∷ join_rows rs)

abbrev pub IsRow : Bytes → Type 0
IsRow r = contains_byte b'\n' r ≡ false

push_byte-join :
    (c : ℕ) (s : List Bytes × Bytes)
    → join_rows (push_byte c s).0 ++ (push_byte c s).1 ≡ c ∷ (join_rows s.0 ++ s.1)
push_byte-join c ([], rest) = refl
push_byte-join c (r ∷ rs, rest) = refl

-- Nothing is lost by splitting.
pub join-split : (d : Bytes) → join_rows (split d).0 ++ (split d).1 ≡ d
unfolding split
join-split [] = refl
join-split (c ∷ cs) = elim (Bool-cases (c == b'\n')) [
  | inl e ↦ rw e (ground (arith, join-split cs))
  | inr e ↦ rw e (push_byte-join c (split cs) ∙ ap (λ t. c ∷ t) (join-split cs))
]

split-rest : (d : Bytes) → IsRow d → split d ≡ ([], d)
unfolding split
split-rest [] h = refl
split-rest (c ∷ cs) h = ground (arith, split-rest cs)

split-row :
    (r : Bytes) (d : Bytes) → IsRow r → split (r ++ (b'\n' ∷ d)) ≡ (r ∷ (split d).0, (split d).1)
unfolding split
split-row [] d h = refl
split-row (c ∷ cs) d h = ground (arith, split-row cs d)

-- Rows without newlines are what splitting their concatenation gives.
pub split-join :
    (rs : List Bytes) (rest : Bytes)
    → All IsRow rs
    → IsRow rest
    → split (join_rows rs ++ rest) ≡ (rs, rest)
split-join [] rest h k = split-rest rest k
split-join (r ∷ rs) rest h k = rw (append_assoc r (b'\n' ∷ join_rows rs) rest) (
    split-row r (join_rows rs ++ rest) h.0
    ∙ ap (λ (s : List Bytes × Bytes). (r ∷ s.0, s.1)) (split-join rs rest h.1 k))

push_byte-rows :
    (c : ℕ) (s : List Bytes × Bytes)
    → (c == b'\n') ≡ false
    → All IsRow s.0 × IsRow s.1
    → All IsRow (push_byte c s).0 × IsRow (push_byte c s).1
push_byte-rows c ([], rest) e h = ground arith
push_byte-rows c (r ∷ rs, rest) e h = ground arith

pub split-IsRow : (d : Bytes) → All IsRow (split d).0 × IsRow (split d).1
unfolding split
split-IsRow [] = ground arith
split-IsRow (c ∷ cs) = elim (Bool-cases (c == b'\n')) [
  | inl e ↦ rw e (let h = split-IsRow cs in ((refl, h.0), h.1))
  | inr e ↦ rw e (push_byte-rows c (split cs) e (split-IsRow cs))
]

-- What a loop over `bytes.Cut(data, "\n")` sees: every row, and the last one if it is not empty.
abbrev pub last_row : Bytes → List Bytes
last_row [] = []
last_row (c ∷ cs) = (c ∷ cs) ∷ []

unfoldable pub lines : Bytes → List Bytes
unfolding split
lines d = (split d).0 ++ last_row (split d).1
