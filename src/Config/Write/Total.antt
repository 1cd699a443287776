-- ===== src/Config/Write/Total.antt =====
-- `rewrite_config` without its buffer: the rows are replaced, or one is added, and the result is
-- refused exactly if it passes the limit.
use software_factory_templat.Base.{
  ℕ, ◌+◌, ◌≤◌, Bool, true, false, not, ◌||◌, List, [], ◌∷◌, ◌++◌, ◌==◌, ltb, if◌then◌else◌, Bytes,
  contains_byte, length, length-append, ◌≡◌, refl, sym, ◌∙◌, arith, ltb-false, Bool-cases, inl, inr,
  append_assoc, append-nil, Result, ok, err, ◌>>=◌,
}
use software_factory_templat.Base.Rows.{join_rows, split}
use software_factory_templat.Config.Keys.{key_is, has_prefix-key, key_count, replace_all}
use software_factory_templat.Config.Write.{
  config_write_limit, configuration_line, newline_to_space, append_bytes, rewrite_rows,
  rewrite_rest, append_missing, rewrite_config,
}

-- The result, unless it is too long.
abbrev pub capped : Bytes → Result Bytes
capped output =
    if ltb config_write_limit (length output)
    then err "resulting configuration exceeds 16 MiB"
    else ok output

abbrev pub capped_with : Bool → Bytes → Result (Bytes × Bool)
capped_with found output =
    if ltb config_write_limit (length output)
    then err "resulting configuration exceeds 16 MiB"
    else ok (output, found)

append_bytes-capped :
    (output value : Bytes)
    → length output ≤ config_write_limit
    → append_bytes output value ≡ capped (output ++ value)
unfolding append_bytes
append_bytes-capped output value h = ground (arith, length-append output value)

-- A buffer past the limit stays past it.
capped-grows :
    (found : Bool) (a b : Bytes)
    → ltb config_write_limit (length a) ≡ true
    → capped_with found (a ++ b) ≡ err "resulting configuration exceeds 16 MiB"
capped-grows found a b h = ground (arith, length-append a b)

-- The buffer after one row and its newline.
abbrev grown : Bytes → Bytes → Bytes
grown output row = (output ++ row) ++ (b'\n' ∷ [])

grown-append :
    (output row rest : Bytes) → grown output row ++ rest ≡ output ++ (row ++ (b'\n' ∷ rest))
grown-append output row rest =
    append_assoc (output ++ row) (b'\n' ∷ []) rest ∙ append_assoc output row (b'\n' ∷ rest)

any_found :
    (found test : Bool) (n : ℕ)
    → ((found || test) || not (n == 0)) ≡ (found || not ((if test then 1 else 0) + n == 0))
any_found found test n = ground arith

-- One round of the loop, when the rest of the loop is known.
rewrite_step :
    (found : Bool) (output row rest : Bytes) (k : Bytes → Result (Bytes × Bool))
    → length output ≤ config_write_limit
    → (length (grown output row) ≤ config_write_limit
        → k (grown output row) ≡ capped_with found (grown output row ++ rest))
    → (append_bytes output row >>= λ written. append_bytes written (b'\n' ∷ []) >>= k)
      ≡ capped_with found (output ++ (row ++ (b'\n' ∷ rest)))
rewrite_step found output row rest k h step =
    rw (append_bytes-capped output row h, ← grown-append output row rest)
      (elim (Bool-cases (ltb config_write_limit (length (output ++ row)))) [
        | inl long ↦
            rw (long, append_assoc (output ++ row) (b'\n' ∷ []) rest)
              (sym (capped-grows found (output ++ row) ((b'\n' ∷ []) ++ rest) long))
        | inr fits ↦
            rw (fits, append_bytes-capped (output ++ row) (b'\n' ∷ []) (ltb-false _ _ fits))
              (elim (Bool-cases (ltb config_write_limit (length (grown output row)))) [
                | inl long ↦ rw long (sym (capped-grows found (grown output row) rest long))
                | inr short ↦ rw short (step (ltb-false _ _ short))
              ])
      ])

rewrite_rows-total :
    (key line : Bytes) (rows : List Bytes) (output : Bytes) (found : Bool)
    → contains_byte b':' key ≡ false
    → length output ≤ config_write_limit
    → rewrite_rows key line rows (output, found)
      ≡ capped_with
          (found || not (key_count key rows == 0))
          (output ++ join_rows (replace_all key line rows))
unfolding rewrite_rows
rewrite_rows-total key line [] output found h k = rw append-nil (ground arith)
rewrite_rows-total key line (r ∷ rs) output found h k =
    rw (has_prefix-key key r h, ← any_found found (key_is key r) (key_count key rs))
      (rewrite_step ((found || key_is key r) || not (key_count key rs == 0)) output
        (if key_is key r then line else r) (join_rows (replace_all key line rs))
        (λ ended. rewrite_rows key line rs (ended, found || key_is key r)) k
        (rewrite_rows-total key line rs (grown output (if key_is key r then line else r))
          (found || key_is key r) h))

rewrite_rest-total :
    (key line rest : Bytes) (output : Bytes) (found : Bool)
    → contains_byte b':' key ≡ false
    → length output ≤ config_write_limit
    → rewrite_rest key line rest (output, found)
      ≡ capped_with (found || key_is key rest) (output ++ (if key_is key rest then line else rest))
unfolding rewrite_rest
rewrite_rest-total key line [] output found h k = rw append-nil (ground arith)
rewrite_rest-total key line (c ∷ cs) output found h k =
    rw
      (
        has_prefix-key key (c ∷ cs) h,
        append_bytes-capped output (if key_is key (c ∷ cs) then line else c ∷ cs) k,
      )
      (ground arith)

newline_to_space_lem :
    (value : Bytes) → contains_byte b'\n' value ≡ false → newline_to_space value ≡ value
newline_to_space_lem [] h = refl
newline_to_space_lem (c ∷ cs) h = ground (arith, newline_to_space_lem cs)

-- How many rows have the key, the unterminated one included.
abbrev pub matches : Bytes → List Bytes → Bytes → ℕ
matches key rows rest = key_count key rows + (if key_is key rest then 1 else 0)

abbrev pub replaced : Bytes → Bytes → List Bytes → Bytes → Bytes
replaced key line rows rest =
    join_rows (replace_all key line rows) ++ (if key_is key rest then line else rest)

-- The text of rows and a rest after one edit.
abbrev pub edited : Bytes → Bytes → List Bytes → Bytes → Bytes
edited key line rows rest =
    if matches key rows rest == 0
    then replaced key line rows rest ++ (line ++ b'\n' ∷ [])
    else replaced key line rows rest

found_count :
    (n : ℕ) (b : Bool) → ((false || not (n == 0)) || b) ≡ not (n + (if b then 1 else 0) == 0)
found_count n b = ground arith

finish :
    (key value line output : Bytes) (n : ℕ)
    → line ≡ configuration_line key value
    → (capped_with (not (n == 0)) output >>= append_missing key value)
      ≡ capped (if n == 0 then output ++ (line ++ b'\n' ∷ []) else output)
unfolding append_missing
finish key value line output n e =
    rw e (elim (Bool-cases (ltb config_write_limit (length output))) [
      | inl long ↦ ground (arith, length-append output (configuration_line key value ++ b'\n' ∷ []))
      | inr fits ↦
          ground (arith, append_bytes-capped output (configuration_line key value ++ b'\n' ∷ []))
    ])

chain_rest :
    (key line rest : Bytes) (output : Bytes) (found : Bool)
    → contains_byte b':' key ≡ false
    → (capped_with found output >>= rewrite_rest key line rest)
      ≡ capped_with (found || key_is key rest) (output ++ (if key_is key rest then line else rest))
chain_rest key line rest output found h =
    elim (Bool-cases (ltb config_write_limit (length output))) [
      | inl long ↦ rw long (
          sym (
            capped-grows (found || key_is key rest) output (if key_is key rest then line else rest)
              long))
      | inr fits ↦ rw fits (rewrite_rest-total key line rest output found h (ltb-false _ _ fits))
    ]

>>=-assoc {ℓ} :
    {A B C : Type ℓ} (m : Result A) (f : A → Result B) (g : B → Result C)
    → (m >>= λ a. f a >>= g) ≡ ((m >>= f) >>= g)
>>=-assoc (ok a) f g = refl
>>=-assoc (err e) f g = refl

-- For a key without a colon and a value without a newline, a rewrite replaces each row of the key,
-- or appends one where there is none, and refuses just when the result is over the limit.
pub rewrite_config-edited :
    (content key value : Bytes)
    → contains_byte b':' key ≡ false
    → contains_byte b'\n' value ≡ false
    → rewrite_config content key value
      ≡ capped (edited key (configuration_line key value) (split content).0 (split content).1)
unfolding rewrite_config
rewrite_config-edited content key value h k =
    let rows = (split content).0 in
    let rest = (split content).1 in
    let line = configuration_line key value in
    rw
      (
        newline_to_space_lem value k,
        rewrite_rows-total key line rows [] false h (omega arith),
        >>=-assoc
            (capped_with (false || not (key_count key rows == 0))
              (join_rows (replace_all key line rows)))
            (rewrite_rest key line rest) (append_missing key value),
        chain_rest key line rest (join_rows (replace_all key line rows))
            (false || not (key_count key rows == 0)) h,
        found_count (key_count key rows) (key_is key rest),
      )
      (finish key value line (replaced key line rows rest) (matches key rows rest) refl)
