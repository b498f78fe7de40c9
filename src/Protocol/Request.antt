-- ===== src/Protocol/Request.antt =====
-- src/protocol.mjs: `validateRequest`, check by check, in the order of the source.
mod Checks
mod Scalars
mod ToolList
mod InputItem
pub use Checks.{Tool, ToolOutput, Request, fail}
unfoldable pub use Checks.{object, keys}
unfoldable pub use Scalars.{
  stream_of, check_store, previous_id_of, model_or_default, check_model, instructions_of, effort_of,
}
unfoldable pub use ToolList.{
  is_tool_name, tool_name_of, validate_tool, validate_tools_from, tools_of,
}
pub use InputItem.{Input}
unfoldable pub use InputItem.{
  make_output, tool_output_of, part_of, content_of, message_of, item_of, input_of, require_input,
}
use codex_official_bridge.Prelude.{
  ℕ, suc, zero, ◌+◌, Char, code, String, Bool, true, false, not, ◌&&◌, ◌||◌, Option, none, some,
  List, [], ◌∷◌, ◌==◌, ◌⊕◌, length, leb, ltb, nat_eq, includes, if◌then◌else◌,
}
use codex_official_bridge.Json.{
  Value, undefined, null, bool, str, arr, obj, Fields, items, field_names, get, is_text, is_object,
  is_string, is_undefined, keys_of, cons, nil,
}
use codex_official_bridge.Text.{is_blank, utf16_length, decimal}
use codex_official_bridge.Protocol.Error.{
  bridge_error, Result, ok, throw, bridge, throw_if, ◌>>=◌, ◌>>◌, BridgeError,
}

abbrev body_keys : List String
body_keys =
    "model" ∷ "input" ∷ "instructions" ∷ "tools" ∷ "stream" ∷ "previous_response_id" ∷ "reasoning"
    ∷ "store" ∷ []

-- `validateRequest(body, defaultModel)`.
unfoldable pub validate_request : Value → Option String → Result Request
unfolding object keys stream_of check_store previous_id_of model_or_default check_model
    instructions_of effort_of input_of require_input
validate_request body default_model = do
  object body "body"
  keys (keys_of body) body_keys ""
  stream ← stream_of (get body "stream")
  check_store (get body "store")
  previous_id ← previous_id_of (get body "previous_response_id")
  model ← check_model (model_or_default (get body "model") previous_id default_model) previous_id
  instructions ← instructions_of (get body "instructions")
  effort ← effort_of (get body "reasoning")
  tools ← tools_of (get body "tools")
  input ← input_of (get body "input") previous_id
  require_input input.tool_output input.text
  ok (record {
    model = model;
    text = input.text;
    tool_output = input.tool_output;
    tools = tools;
    instructions = instructions;
    effort = effort;
    previous_id = previous_id;
    stream = stream;
  })
