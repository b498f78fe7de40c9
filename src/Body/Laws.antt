-- ===== src/Body/Laws.antt =====
-- A body is accepted whole exactly where its chunks together are within the limit.
use codex_official_bridge.Prelude.{
  ℕ, ◌+◌, ◌≤◌, ◌≡◌, ◌∙◌, List, [], ◌∷◌, ◌++◌, append-nil, append_assoc, length, length-append, leb,
  ltb, arith, Bool-cases, inl, inr, if◌then◌else◌,
}
use codex_official_bridge.Codes.{Codes}
use codex_official_bridge.Body.{read_chunks, read_all}

abbrev pub joined : List Codes → Codes
joined [] = []
joined (chunk ∷ chunks) = chunk ++ joined chunks

module _ {R : Type 0} (refused : R) (accept : Codes → R) (limit : ℕ) where
  read_chunks-joined :
      (size : ℕ) (bytes : Codes) (chunks : List Codes)
      → size ≤ limit
      → read_chunks refused accept limit size bytes chunks ≡ (
          if leb (size + length (joined chunks)) limit
          then accept (bytes ++ joined chunks)
          else refused)
  unfolding read_chunks
  read_chunks-joined size bytes [] h = ground (arith, append-nil bytes)
  read_chunks-joined size bytes (chunk ∷ chunks) h =
      elim (Bool-cases (ltb limit (size + length chunk))) [
        | inl long ↦ ground (arith, long, length-append chunk (joined chunks))
        | inr short ↦ rw short (
            read_chunks-joined (size + length chunk) (bytes ++ chunk) chunks (ground arith)
            ∙ ground (
              arith,
              length-append chunk (joined chunks),
              append_assoc bytes chunk (joined chunks),
            ))
      ]

  pub read_all-joined :
      (chunks : List Codes)
      → read_all refused accept limit chunks
        ≡ (if leb (length (joined chunks)) limit then accept (joined chunks) else refused)
  unfolding read_all
  read_all-joined chunks = ground (arith, read_chunks-joined 0 [] chunks (omega arith))
