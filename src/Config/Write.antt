-- ===== src/Config/Write.antt =====
-- write.go: one rewrite of a configuration, the reference for the edit plan.
pub mod Total
use software_factory_templat.Base.{
  ℕ, ◌-◌, Bool, true, false, ◌||◌, List, [], ◌∷◌, ◌++◌, ◌==◌, ltb, if◌then◌else◌, Bytes, codes,
  has_prefix, length, Result, ok, err, ◌>>=◌, refuse, ◌>>◌,
}
use software_factory_templat.Base.Rows.{split}
use software_factory_templat.Config.Value.{key_prefix}

-- `16 << 20`
abbrev pub config_write_limit : ℕ
config_write_limit = 16777216

abbrev pub configuration_line : Bytes → Bytes → Bytes
configuration_line key value = key ++ (b':' ∷ b' ' ∷ b'"' ∷ (value ++ b'"' ∷ []))

-- `strings.ReplaceAll(value, "\n", " ")`
abbrev pub newline_to_space : Bytes → Bytes
newline_to_space [] = []
newline_to_space (c ∷ cs) = (if c == b'\n' then b' ' else c) ∷ newline_to_space cs

-- The closure `appendBytes` over the output buffer.
unfoldable pub append_bytes : Bytes → Bytes → Result Bytes
append_bytes output value =
    if ltb (config_write_limit - length output) (length value)
    then err "resulting configuration exceeds 16 MiB"
    else ok (output ++ value)

abbrev pub replace_row : Bytes → Bytes → Bytes → Bytes
replace_row key replacement line = if has_prefix line (key_prefix key) then replacement else line

-- The loop over the terminated rows: the output so far, and whether a row matched.
unfoldable pub rewrite_rows : Bytes → Bytes → List Bytes → Bytes × Bool → Result (Bytes × Bool)
unfolding append_bytes
rewrite_rows key replacement [] s = ok s
rewrite_rows key replacement (line ∷ rest) (output, found) = do
  written ← append_bytes output (replace_row key replacement line)
  ended ← append_bytes written (b'\n' ∷ [])
  rewrite_rows key replacement rest (ended, found || has_prefix line (key_prefix key))

-- The last round, on a row with no newline; there is none when `len(data)` is 0.
unfoldable pub rewrite_rest : Bytes → Bytes → Bytes → Bytes × Bool → Result (Bytes × Bool)
unfolding append_bytes
rewrite_rest key replacement [] s = ok s
rewrite_rest key replacement (c ∷ cs) (output, found) = do
  written ← append_bytes output (replace_row key replacement (c ∷ cs))
  ok (written, found || has_prefix (c ∷ cs) (key_prefix key))

unfoldable pub append_missing : Bytes → Bytes → Bytes × Bool → Result Bytes
unfolding append_bytes
append_missing key value (output, true) = ok output
append_missing key value (output, false) =
    append_bytes output (configuration_line key value ++ b'\n' ∷ [])

unfoldable pub rewrite_config : Bytes → Bytes → Bytes → Result Bytes
unfolding rewrite_rows rewrite_rest append_missing
rewrite_config content key value = do
  let replacement = configuration_line key (newline_to_space value)
  s ← rewrite_rows key replacement (split content).0 ([], false)
  t ← rewrite_rest key replacement (split content).1 s
  append_missing key value t
