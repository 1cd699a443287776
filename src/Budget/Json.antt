-- ===== src/Budget/Json.antt =====
-- The values that Go's `any` holds after JSON is decoded, and `map[string]any` as a list of fields.
use software_factory_templat.Base.{
  Bool, true, false, [], Bytes, bytes_eq, bytes_eq_iff, if◌then◌else◌, ◌≡◌, refl, arith, Bool-cases,
  inl, inr,
}

mutual
  pub data Json : Type 0 where
    null : Json
    boolean : Bool → Json
    number : Bytes → Json
    text : Bytes → Json
    array : Items → Json
    object : Fields → Json

  pub data Items : Type 0 where
    nil : Items
    cons : Json → Items → Items

  pub data Fields : Type 0 where
    empty : Fields
    field : Bytes → Json → Fields → Fields

-- `m[k]`, which is nil where the key is missing.
abbrev pub get : Fields → Bytes → Json
get empty k = null
get (field j v m) k = if bytes_eq j k then v else get m k

-- `_, ok := m[k]`
abbrev pub has : Fields → Bytes → Bool
has empty k = false
has (field j v m) k = if bytes_eq j k then true else has m k

-- `m[k] = v`
abbrev pub put : Fields → Bytes → Json → Fields
put empty k v = field k v empty
put (field j w m) k v = if bytes_eq j k then field j v m else field j w (put m k v)

abbrev pub is_null : Json → Bool
is_null null = true
is_null (boolean b) = false
is_null (number n) = false
is_null (text s) = false
is_null (array xs) = false
is_null (object m) = false

-- `s, _ := v.(string)`
abbrev pub text_of : Json → Bytes
text_of (text s) = s
text_of null = []
text_of (boolean b) = []
text_of (number n) = []
text_of (array xs) = []
text_of (object m) = []

-- `_, ok := v.(string)`
abbrev pub is_text : Json → Bool
is_text (text s) = true
is_text null = false
is_text (boolean b) = false
is_text (number n) = false
is_text (array xs) = false
is_text (object m) = false

-- `v == s` for a string `s`
abbrev pub text_eq : Json → Bytes → Bool
text_eq (text t) s = bytes_eq t s
text_eq null s = false
text_eq (boolean b) s = false
text_eq (number n) s = false
text_eq (array xs) s = false
text_eq (object m) s = false

-- A written field reads back, and the others are as before.
pub get-put :
    (m : Fields) (k j : Bytes) (v : Json)
    → get (put m k v) j ≡ (if bytes_eq k j then v else get m j)
get-put empty k j v = refl
get-put (field i w m) k j v = elim (Bool-cases (bytes_eq i k)) [
  | inl e ↦ rw e (ground (arith, bytes_eq_iff i k, e, bytes_eq_iff i j, bytes_eq_iff k j))
  | inr e ↦
      rw e
        (ground (arith, e, bytes_eq_iff i k, bytes_eq_iff i j, bytes_eq_iff k j, get-put m k j v))
]
