-- ===== src/Protocol/Request/Checks.antt =====
-- src/protocol.mjs: what `validateRequest` returns, and its helpers `object` and `keys`.
use codex_official_bridge.Prelude.{
  code, String, Bool, not, Option, some, List, [], ◌∷◌, ◌⊕◌, includes,
}
use codex_official_bridge.Json.{Value, is_object}
use codex_official_bridge.Protocol.Error.{bridge_error, Result, ok, throw_if, ◌>>◌, BridgeError}

pub record Tool : Type 0 where
  pub name : String
  pub description : String
  pub parameters : Value

pub record ToolOutput : Type 0 where
  pub call_id : String
  pub output : String

-- `text` and `tool_output` are separate, as in the object that `validateRequest` returns.
pub record Request : Type 0 where
  pub model : Option String
  pub text : Option String
  pub tool_output : Option ToolOutput
  pub tools : Option (List Tool)
  pub instructions : Option String
  pub effort : Option String
  pub previous_id : Option String
  pub stream : Bool

abbrev pub fail : String → String → String → BridgeError
fail code message param = bridge_error 400 code message (some param)

abbrev pub invalid : String → String → BridgeError
invalid message param = fail "invalid_request" message param

-- `object(value, param)`.
unfoldable pub object : Value → String → Result (Unit {0})
object value param =
    throw_if (not (is_object value)) (invalid (param ⊕ " must be an object.") param)

-- `keys(value, allowed, param)`.
unfoldable pub keys : List String → List String → String → Result (Unit {0})
keys [] allowed param = ok tt
keys (key ∷ rest) allowed param = do
  throw_if (not (includes allowed key))
      (fail "unsupported_field" ("Unsupported field: " ⊕ param ⊕ key ⊕ ".") (param ⊕ key))
  keys rest allowed param
