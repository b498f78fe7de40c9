-- ===== src/Body.antt =====
-- The loop that reads a body chunk by chunk up to a limit: src/native-runtime.mjs, src/server.mjs
-- and scripts/desktop-image-mcp.mjs have one each, with their own errors.
pub mod Laws
use codex_official_bridge.Prelude.{ℕ, ◌+◌, Bool, List, [], ◌∷◌, ◌++◌, length, ltb, if◌then◌else◌}
use codex_official_bridge.Codes.{Codes}

module _ {R : Type 0} (refused : R) (accept : Codes → R) (limit : ℕ) where
  -- With the size and the bytes so far.
  unfoldable pub read_chunks : ℕ → Codes → List Codes → R
  read_chunks size bytes [] = accept bytes
  read_chunks size bytes (chunk ∷ chunks) =
      let rest = read_chunks (size + length chunk) (bytes ++ chunk) chunks in
      if ltb limit (size + length chunk) then refused else rest

  unfoldable pub read_all : List Codes → R
  unfolding read_chunks
  read_all chunks = read_chunks 0 [] chunks
