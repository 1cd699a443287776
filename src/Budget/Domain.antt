-- ===== src/Budget/Domain.antt =====
-- config.go and history.go: the identities, harnesses, roles and outcomes that the ledger accepts.
use software_factory_templat.Base.{
  ℕ, Bool, true, false, ◌&&◌, ◌||◌, List, [], ◌∷◌, Bytes, codes, bytes_eq, length, leb, ◌==◌,
  if◌then◌else◌,
}

abbrev pub is_alphanumeric : ℕ → Bool
is_alphanumeric c =
    (leb b'a' c && leb c b'z') || (leb b'A' c && leb c b'Z') || (leb b'0' c && leb c b'9')

-- The loop from the second byte on.
unfoldable pub valid_rest : Bytes → Bool
valid_rest [] = true
valid_rest (c ∷ cs) = (is_alphanumeric c || c == b'_' || c == b'-') && valid_rest cs

unfoldable pub valid_id : Bytes → Bool
unfolding valid_rest
valid_id [] = false
valid_id (c ∷ cs) = leb (length (c ∷ cs)) 64 && is_alphanumeric c && valid_rest cs

abbrev pub one_of : List Bytes → Bytes → Bool
one_of [] s = false
one_of (x ∷ xs) s = bytes_eq x s || one_of xs s

unfoldable pub harness : Bytes → Bool
harness s = one_of (codes "codex" ∷ codes "claude" ∷ codes "opencode" ∷ []) s

unfoldable pub role : Bytes → Bool
role s =
    one_of
      (codes "spec-writer"
        ∷ codes "implementer"
        ∷ codes "refactorer"
        ∷ codes "reviewer"
        ∷ codes "wiki-maintainer"
        ∷ [])
      s

unfoldable pub valid_outcome : Bytes → (running : Bool) → Bool
valid_outcome s running =
    if bytes_eq s (codes "running")
    then running
    else one_of
        (codes "completed"
          ∷ codes "failed"
          ∷ codes "timeout"
          ∷ codes "interrupted"
          ∷ codes "output_limit"
          ∷ codes "launch_error"
          ∷ [])
        s
