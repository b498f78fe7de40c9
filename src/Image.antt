-- ===== src/Image.antt =====
-- scripts/desktop-image-mcp.mjs, an MCP server that generates images by the bridge: what its tools
-- fail with.
pub mod Verdict
pub mod Png
pub mod Stdio
pub mod Service
pub mod Connection
pub mod Output
use codex_official_bridge.Prelude.{ℕ, String, Option, none}

-- `ToolError` with its code, its message and the HTTP status of its details; another error; and
-- what the model needs where a loop runs out of fuel.
pub data Failure : Type 0 where
  tool_error : (code message : String) → (http_status : Option ℕ) → Failure
  other : Failure
  out_of_fuel : Failure

pub data Outcome (A : Type 0) : Type 0 where
  done : A → Outcome A
  failed : Failure → Outcome A

infixl 5 ◌>>=◌
unfoldable pub ◌>>=◌ : {A B : Type 0} → Outcome A → (A → Outcome B) → Outcome B
done a >>= f = f a
failed e >>= f = failed e

-- `fail(code, message)`.
abbrev pub fail : {A : Type 0} → (code message : String) → Outcome A
fail code message = failed (tool_error code message none)
