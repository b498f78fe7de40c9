-- ===== src/Protocol/Request/Scalars.antt =====
-- src/protocol.mjs, `validateRequest`: the checks of the fields of the body but `tools` and `input`.
use codex_official_bridge.Prelude.{
  String, Bool, false, ◌||◌, Option, none, some, [], ◌∷◌, ◌==◌, ltb, if◌then◌else◌,
}
use codex_official_bridge.Json.{Value, undefined, null, bool, str, get, keys_of}
use codex_official_bridge.Text.{is_blank, utf16_length}
use codex_official_bridge.Protocol.Error.{Result, ok, throw, bridge, ◌>>◌, BridgeError}
use codex_official_bridge.Protocol.Request.Checks.{fail, invalid, object, keys}

unfoldable pub stream_of : Value → Result Bool
stream_of undefined = ok false
stream_of (bool b) = ok b
stream_of _ = throw (bridge (invalid "stream must be boolean." "stream"))

unfoldable pub check_store : Value → Result (Unit {0})
check_store undefined = ok tt
check_store (bool false) = ok tt
check_store _ = throw (
    bridge (
      fail "unsupported_field" "Durable storage is not supported; use store:false or omit store."
        "store"))

unfoldable pub previous_id_of : Value → Result (Option String)
previous_id_of undefined = ok none
previous_id_of (str s) =
    if s == ""
    then throw
        (bridge (invalid "previous_response_id must be a nonempty string." "previous_response_id"))
    else ok (some s)
previous_id_of _ =
    throw
      (bridge (invalid "previous_response_id must be a nonempty string." "previous_response_id"))

abbrev of_option : Option String → Value
of_option none = undefined
of_option (some s) = str s

-- `body.model ?? (previousId ? undefined : defaultModel)`.
unfoldable pub model_or_default : Value → Option String → Option String → Value
model_or_default undefined none default_model = of_option default_model
model_or_default undefined (some id) default_model = undefined
model_or_default null none default_model = of_option default_model
model_or_default null (some id) default_model = undefined
model_or_default v previous default_model = v

abbrev bad_model : BridgeError
bad_model = invalid "Provide a nonempty model, or configure BRIDGE_MODEL." "model"

unfoldable pub check_model : Value → Option String → Result (Option String)
check_model undefined none = throw (bridge bad_model)
check_model undefined (some id) = ok none
check_model (str s) previous =
    if is_blank s || ltb 128 (utf16_length s) then throw (bridge bad_model) else ok (some s)
check_model _ previous = throw (bridge bad_model)

unfoldable pub instructions_of : Value → Result (Option String)
instructions_of undefined = ok none
instructions_of (str s) = ok (some s)
instructions_of _ = throw (bridge (invalid "instructions must be a string." "instructions"))

abbrev bad_effort : BridgeError
bad_effort = invalid "reasoning.effort must be a nonempty string." "reasoning.effort"

unfoldable pub check_effort : Value → Result (Option String)
check_effort (str s) =
    if s == "" || ltb 32 (utf16_length s) then throw (bridge bad_effort) else ok (some s)
check_effort _ = throw (bridge bad_effort)

unfoldable pub effort_of : Value → Result (Option String)
unfolding object keys check_effort keys_of get
effort_of undefined = ok none
effort_of v = do
  object v "reasoning"
  keys (keys_of v) ("effort" ∷ []) "reasoning."
  check_effort (get v "effort")
