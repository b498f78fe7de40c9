-- ===== src/Protocol/Request/ToolList.antt =====
-- src/protocol.mjs, `validateRequest`: the checks of `tools`.
use codex_official_bridge.Prelude.{
  ℕ, suc, code, String, Bool, true, false, not, ◌&&◌, ◌||◌, Option, none, some, List, [], ◌∷◌, ◌⊕◌,
  length, leb, ltb, nat_eq, includes, if◌then◌else◌,
}
use codex_official_bridge.Json.{Value, undefined, bool, str, arr, items, get, is_text, keys_of}
use codex_official_bridge.Text.{utf16_length, decimal}
use codex_official_bridge.Protocol.Error.{
  Result, ok, throw, bridge, throw_if, ◌>>=◌, ◌>>◌, BridgeError,
}
use codex_official_bridge.Protocol.Request.Checks.{Tool, fail, invalid, object, keys}

-- `/^[a-zA-Z0-9_-]{1,64}$/`.
unfoldable pub is_name_char : ℕ → Bool
is_name_char c =
    (leb b'a' c && leb c b'z')
    || (leb b'A' c && leb c b'Z')
    || (leb b'0' c && leb c b'9')
    || nat_eq c b'_'
    || nat_eq c b'-'

unfoldable pub all_name_chars : String → Bool
all_name_chars String.[] = true
all_name_chars (String.◌∷◌ c s) = is_name_char (code c) && all_name_chars s

unfoldable pub is_tool_name : String → Bool
unfolding is_name_char all_name_chars utf16_length
is_tool_name s = all_name_chars s && leb 1 (utf16_length s) && leb (utf16_length s) 64

unfoldable pub tool_name_of : Value → List String → String → Result String
tool_name_of (str s) names p =
    if is_tool_name s && not (includes names s)
    then ok s
    else throw (
        bridge (
          invalid
            "Tool names must be unique and contain 1–64 letters, numbers, underscores or hyphens."
            (p ⊕ "name")))
tool_name_of _ names p = throw (
    bridge (
      invalid "Tool names must be unique and contain 1–64 letters, numbers, underscores or hyphens."
        (p ⊕ "name")))

unfoldable pub description_of : Value → String → Result String
description_of undefined p = ok ""
description_of (str s) p = ok s
description_of _ p =
    throw (bridge (invalid "Tool description must be a string." (p ⊕ "description")))

unfoldable pub check_strict : Value → String → Result (Unit {0})
check_strict undefined p = ok tt
check_strict (bool false) p = ok tt
check_strict (bool true) p = throw (
    bridge (
      fail "unsupported_field"
        "strict:true cannot be preserved by app-server dynamic tools; use false or omit it."
        (p ⊕ "strict")))
check_strict _ p = throw (bridge (invalid "strict must be boolean." (p ⊕ "strict")))

-- One round of the `map` over `body.tools`; `names` are those of the tools before.
unfoldable pub validate_tool : ℕ → List String → Value → Result Tool
unfolding object keys tool_name_of description_of check_strict
validate_tool i names tool = do
  let p = "tools[" ⊕ decimal i ⊕ "]."
  object tool p
  keys (keys_of tool) ("type" ∷ "name" ∷ "description" ∷ "parameters" ∷ "strict" ∷ []) p
  throw_if (not (is_text "function" (get tool "type"))) (
      fail "unsupported_tool"
        "This prototype supports function tools only; custom/freeform/native tools are not silently converted."
        (p ⊕ "type"))
  name ← tool_name_of (get tool "name") names p
  description ← description_of (get tool "description") p
  object (get tool "parameters") (p ⊕ "parameters")
  throw_if (not (is_text "object" (get (get tool "parameters") "type")))
      (invalid "Tool parameters must be an object JSON Schema." (p ⊕ "parameters"))
  check_strict (get tool "strict") p
  ok (record { name = name; description = description; parameters = get tool "parameters" })

unfoldable pub validate_tools_from : ℕ → List String → List Value → Result (List Tool)
validate_tools_from i names [] = ok []
validate_tools_from i names (v ∷ vs) = do
  tool ← validate_tool i names v
  tools ← validate_tools_from (suc i) (tool.name ∷ names) vs
  ok (tool ∷ tools)

abbrev bad_tools : BridgeError
bad_tools = invalid "tools must be an array with at most 32 entries." "tools"

unfoldable pub tools_of : Value → Result (Option (List Tool))
unfolding validate_tools_from
tools_of undefined = ok none
tools_of (arr vs) = do
  throw_if (ltb 32 (length (items vs))) bad_tools
  tools ← validate_tools_from 0 [] (items vs)
  ok (some tools)
tools_of _ = throw (bridge bad_tools)
