-- ===== src/Config/Keys.antt =====
-- The key of a row: the text before its first colon. Rows of one key, counted and measured.
use software_factory_templat.Base.{
  ℕ, ◌+◌, ◌*◌, Bool, true, false, ◌&&◌, ◌||◌, List, [], ◌∷◌, ◌++◌, if◌then◌else◌, Bytes, bytes_eq,
  before, contains_byte, has_prefix, length, length-append, All, ◌≡◌, refl, sym, ap, ◌∙◌, arith,
  append_assoc,
}
use software_factory_templat.Base.Rows.{join_rows, IsRow}
use software_factory_templat.Config.Value.{key_prefix}
use software_factory_templat.Config.Write.{configuration_line}

abbrev pub key_is : Bytes → Bytes → Bool
key_is key line = contains_byte b':' line && bytes_eq (before b':' line) key

-- The keys that an edit plan takes.
pub record IsKey (key : Bytes) : Type 0 where
  pub no_colon : contains_byte b':' key ≡ false
  pub no_newline : contains_byte b'\n' key ≡ false
  pub not_empty : bytes_eq key [] ≡ false

pub has_prefix-key :
    (key line : Bytes)
    → contains_byte b':' key ≡ false
    → has_prefix line (key_prefix key) ≡ key_is key line
has_prefix-key [] [] h = refl
has_prefix-key (c ∷ cs) [] h = refl
has_prefix-key [] (x ∷ xs) h = ground arith
has_prefix-key (c ∷ cs) (x ∷ xs) h = ground (arith, has_prefix-key cs xs)

pub contains-configuration_line :
    (key value : Bytes) → contains_byte b':' (configuration_line key value) ≡ true
contains-configuration_line [] value = refl
contains-configuration_line (c ∷ cs) value = ground (arith, contains-configuration_line cs value)

pub before-configuration_line :
    (key value : Bytes)
    → contains_byte b':' key ≡ false
    → before b':' (configuration_line key value) ≡ key
before-configuration_line [] value h = refl
before-configuration_line (c ∷ cs) value h = ground (arith, before-configuration_line cs value)

pub key_is-configuration_line :
    (key value other : Bytes)
    → contains_byte b':' key ≡ false
    → key_is other (configuration_line key value) ≡ bytes_eq key other
key_is-configuration_line key value other h =
    rw (contains-configuration_line key value, before-configuration_line key value h)

pub contains_byte-append :
    (c : ℕ) (a b : Bytes) → contains_byte c (a ++ b) ≡ (contains_byte c a || contains_byte c b)
contains_byte-append c [] b = refl
contains_byte-append c (x ∷ xs) b = ground (arith, contains_byte-append c xs b)

pub configuration_line-IsRow :
    (key value : Bytes)
    → contains_byte b'\n' key ≡ false
    → contains_byte b'\n' value ≡ false
    → IsRow (configuration_line key value)
configuration_line-IsRow key value h k = rw (
  contains_byte-append b'\n' key (b':' ∷ b' ' ∷ b'"' ∷ (value ++ b'"' ∷ [])),
  contains_byte-append b'\n' value (b'"' ∷ []),
  h,
  k,
)

-- How many rows have the key, and how many bytes they have together.
abbrev pub key_count : Bytes → List Bytes → ℕ
key_count key [] = 0
key_count key (r ∷ rs) = (if key_is key r then 1 else 0) + key_count key rs

abbrev pub key_size : Bytes → List Bytes → ℕ
key_size key [] = 0
key_size key (r ∷ rs) = (if key_is key r then length r else 0) + key_size key rs

-- Every row of the key is replaced.
abbrev pub replace_all : Bytes → Bytes → List Bytes → List Bytes
replace_all key line [] = []
replace_all key line (r ∷ rs) = (if key_is key r then line else r) ∷ replace_all key line rs

pub key_count-append :
    (key : Bytes) (rs ss : List Bytes)
    → key_count key (rs ++ ss) ≡ key_count key rs + key_count key ss
key_count-append key [] ss = omega arith
key_count-append key (r ∷ rs) ss = omega (arith, key_count-append key rs ss)

pub key_size-append :
    (key : Bytes) (rs ss : List Bytes) → key_size key (rs ++ ss) ≡ key_size key rs + key_size key ss
key_size-append key [] ss = omega arith
key_size-append key (r ∷ rs) ss = omega (arith, key_size-append key rs ss)

pub replace_all-append :
    (key line : Bytes) (rs ss : List Bytes)
    → replace_all key line (rs ++ ss) ≡ replace_all key line rs ++ replace_all key line ss
replace_all-append key line [] ss = refl
replace_all-append key line (r ∷ rs) ss =
    ap (λ t. (if key_is key r then line else r) ∷ t) (replace_all-append key line rs ss)

pub replace_all_none :
    (key line : Bytes) (rs : List Bytes) → key_count key rs ≡ 0 → replace_all key line rs ≡ rs
replace_all_none key line [] h = refl
replace_all_none key line (r ∷ rs) h = ground (arith, replace_all_none key line rs)

pub key_size_none : (key : Bytes) (rs : List Bytes) → key_count key rs ≡ 0 → key_size key rs ≡ 0
key_size_none key [] h = refl
key_size_none key (r ∷ rs) h = ground (arith, key_size_none key rs)

pub join_rows-append : (rs ss : List Bytes) → join_rows (rs ++ ss) ≡ join_rows rs ++ join_rows ss
join_rows-append [] ss = refl
join_rows-append (r ∷ rs) ss =
    ap (λ t. r ++ (b'\n' ∷ t)) (join_rows-append rs ss)
    ∙ sym (append_assoc r (b'\n' ∷ join_rows rs) (join_rows ss))

replaced_row-length :
    (b : Bool) (line r : Bytes)
    → length (if b then line else r) + (if b then length r else 0)
      ≡ length r + (if b then 1 else 0) * length line
replaced_row-length true line r = omega arith
replaced_row-length false line r = omega arith

-- What a replacement adds to the length and what it takes away.
pub length-replace_all :
    (key line : Bytes) (rs : List Bytes)
    → length (join_rows (replace_all key line rs)) + key_size key rs
      ≡ length (join_rows rs) + key_count key rs * length line
length-replace_all key line [] = omega arith
length-replace_all key line (r ∷ rs) = omega (
  arith,
  length-append (if key_is key r then line else r) (b'\n' ∷ join_rows (replace_all key line rs)),
  length-append r (b'\n' ∷ join_rows rs),
  replaced_row-length (key_is key r) line r,
  length-replace_all key line rs,
)

pub replace_all-IsRow :
    (key line : Bytes) (rs : List Bytes)
    → IsRow line
    → All IsRow rs
    → All IsRow (replace_all key line rs)
replace_all-IsRow key line [] h k = tt
replace_all-IsRow key line (r ∷ rs) h k = (pick (key_is key r), replace_all-IsRow key line rs h k.1)
  where
    pick : (b : Bool) → IsRow (if b then line else r)
    pick true = h
    pick false = k.0
