-- ===== src/Protocol/Request/InputItem.antt =====
-- src/protocol.mjs, `validateRequest`: the checks of `input`.
use codex_official_bridge.Prelude.{
  String, not, ◌&&◌, ◌||◌, Option, none, some, [], ◌∷◌, ◌==◌, if◌then◌else◌,
}
use codex_official_bridge.Json.{
  Value, str, arr, get, is_text, is_string, is_undefined, keys_of, cons, nil,
}
use codex_official_bridge.Text.{is_blank}
use codex_official_bridge.Protocol.Error.{Result, ok, throw, bridge, throw_if, ◌>>◌, BridgeError}
use codex_official_bridge.Protocol.Request.Checks.{ToolOutput, fail, object, keys}

-- What `input` comes to: `text` and `toolOutput`, each of which may stay undefined.
pub record Input : Type 0 where
  pub text : Option String
  pub tool_output : Option ToolOutput

abbrev of_text : Option String → Input
of_text text = record { text = text; tool_output = none }

abbrev text_value : Value → Option String
text_value (str s) = some s
text_value _ = none

abbrev bad_output : BridgeError
bad_output =
    fail "invalid_tool_output"
      "Tool output requires previous_response_id, call_id and a string output." "input"

-- `previousId`, `item.call_id` and `item.output`.
unfoldable pub make_output : Option String → Value → Value → Result Input
make_output (some id) (str call_id) (str output) =
    if call_id == ""
    then throw (bridge bad_output)
    else ok
        (record { text = none; tool_output = some (record { call_id = call_id; output = output }) })
make_output _ _ _ = throw (bridge bad_output)

unfoldable pub tool_output_of : Value → Option String → Result Input
unfolding object keys make_output
tool_output_of item previous = do
  keys (keys_of item) ("type" ∷ "call_id" ∷ "output" ∷ []) "input[0]."
  make_output previous (get item "call_id") (get item "output")

abbrev bad_part : BridgeError
bad_part = fail "unsupported_input" "Only input_text is supported in this prototype." "input"

-- The one part of a message whose content is a list.
unfoldable pub part_of : Value → Result Input
unfolding object keys
part_of part = do
  object part "input[0].content[0]"
  keys (keys_of part) ("type" ∷ "text" ∷ []) "input[0].content[0]."
  throw_if (not (is_text "input_text" (get part "type")) || not (is_string (get part "text")))
      bad_part
  ok (of_text (text_value (get part "text")))

unfoldable pub content_of : Value → Result Input
unfolding part_of
content_of (str s) = ok (of_text (some s))
content_of (arr (cons part nil)) = part_of part
content_of _ = ok (of_text none)

unfoldable pub message_of : Value → Result Input
unfolding keys content_of
message_of item = do
  keys (keys_of item) ("type" ∷ "role" ∷ "content" ∷ []) "input[0]."
  throw_if
      ((not (is_undefined (get item "type")) && not (is_text "message" (get item "type")))
        || not (is_text "user" (get item "role")))
      (fail "unsupported_input"
        "Initial input supports one user text message; use previous_response_id for history."
        "input")
  content_of (get item "content")

unfoldable pub item_of : Value → Option String → Result Input
unfolding object tool_output_of message_of
item_of item previous = do
  object item "input[0]"
  if is_text "function_call_output" (get item "type")
      then tool_output_of item previous
      else message_of item

unfoldable pub input_of : Value → Option String → Result Input
unfolding item_of
input_of (str s) previous = ok (of_text (some s))
input_of (arr (cons item nil)) previous = item_of item previous
input_of _ previous = ok (of_text none)

abbrev no_input : BridgeError
no_input =
    fail "unsupported_input"
      "input must be nonempty text, one user text message, or one tool output." "input"

-- The last check: a tool output, or a text that is not blank.
unfoldable pub require_input : Option ToolOutput → Option String → Result (Unit {0})
require_input (some out) text = ok tt
require_input none none = throw (bridge no_input)
require_input none (some s) = throw_if (is_blank s) no_input
