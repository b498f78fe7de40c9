-- ===== src/Bridge/Checks.antt =====
-- src/bridge.mjs: `checkContinuation`, and the tests at the front of `respond`.
use codex_official_bridge.Prelude.{
  String, Bool, true, false, not, ◌||◌, Option, none, some, List, [], ◌∷◌, ◌==◌, ◌⊕◌, if◌then◌else◌,
}
use codex_official_bridge.Json.{is_truthy}
use codex_official_bridge.Protocol.Error.{
  bridge, bridge_error, BridgeError, Result, ok, throw, throw_if, ◌>>◌,
}
use codex_official_bridge.Protocol.Request.{Tool, ToolOutput, Request}
use codex_official_bridge.Protocol.Tools.{canonical_tools}
use codex_official_bridge.Bridge.{Bridge, Session}

abbrev pub conflict : String → String → Option String → BridgeError
conflict code message param = bridge_error 409 code message param

abbrev pub has_call : Session → Bool
has_call s = elim s.waiting [
  | some call ↦ true
  | none ↦ elim s.pending [ [] ↦ false | call ∷ calls ↦ true ]
]

-- `req[key] !== undefined && req[key] !== expected`.
abbrev pub changes : Option String → Option String → Bool
changes none expected = false
changes (some a) none = true
changes (some a) (some b) = not (a == b)

abbrev pub config_changed : String → BridgeError
config_changed key =
    conflict "session_config_changed" (key ⊕ " cannot change within a session.") (some key)

abbrev pub check_tools : Option (List Tool) → List Tool → Result (Unit {0})
check_tools none tools = ok tt
check_tools (some asked) tools =
    throw_if (not (canonical_tools asked == canonical_tools tools))
      (conflict "session_config_changed" "Tools cannot change within a session." (some "tools"))

abbrev pub wrong_call : BridgeError
wrong_call =
    conflict "invalid_call_id" "Tool result does not match the outstanding function call."
      (some "input")

abbrev pub waits_for : Session → String → Bool
waits_for s id = elim s.waiting [ none ↦ false | some call ↦ call.client_call_id == id ]

abbrev pub check_input : Session → Option ToolOutput → Result (Unit {0})
check_input s none = throw_if (has_call s || is_truthy s.turn_id) (
    conflict "tool_result_required"
      "Submit the outstanding function_call_output before another user message." (some "input"))
check_input s (some out) = throw_if (not (waits_for s out.call_id)) wrong_call

abbrev pub check_last_error : Option BridgeError → Result (Unit {0})
check_last_error none = ok tt
check_last_error (some e) = throw (bridge e)

abbrev pub stale : BridgeError
stale =
    conflict "invalid_previous_response_id"
      "Only the latest response in the current in-memory session can be continued."
      (some "previous_response_id")

-- The checks of a request that continues the session.
unfoldable pub check_session : Request → Session → Result (Unit {0})
check_session req s = do
  check_last_error s.last_error
  throw_if (changes req.model s.model) (config_changed "model")
  throw_if (changes req.instructions (some s.instructions)) (config_changed "instructions")
  throw_if (changes req.effort s.effort) (config_changed "effort")
  check_tools req.tools s.tools
  check_input s req.tool_output

abbrev pub check_new : Option Session → Result (Unit {0})
check_new none = ok tt
check_new (some s) = throw_if (is_truthy s.turn_id || has_call s) (
    conflict "session_busy"
      "An existing session is waiting for its tool result. Resume it or let it expire." none)

abbrev pub is_last : String → Session → Bool
is_last id s = elim s.last_response_id [ none ↦ false | some last ↦ last == id ]

abbrev pub check_continued : Request → String → Option Session → Result (Unit {0})
check_continued req id none = throw (bridge stale)
check_continued req id (some s) = if is_last id s then check_session req s else throw (bridge stale)

-- `checkContinuation(req)`.
unfoldable pub check_continuation : Request → Option Session → Result (Unit {0})
check_continuation req session = elim req.previous_id [
  | none ↦ check_new session
  | some id ↦ check_continued req id session
]

unavailable : BridgeError
unavailable =
    bridge_error 503 "codex_unavailable"
      "Official Codex app-server is unavailable; restart the bridge." none

busy_error : BridgeError
busy_error = conflict "bridge_busy" "This prototype accepts one HTTP generation at a time." none

-- What `respond` tests before it changes anything.
unfoldable pub admit : Request → (aborted : Bool) → Bridge → Result (Unit {0})
unfolding unavailable busy_error
admit req aborted b =
    if b.closed
    then throw (bridge unavailable)
    else if b.busy
    then throw (bridge busy_error)
    else if aborted
    then throw (bridge (bridge_error 499 "client_disconnected" "The client disconnected." none))
    else check_continuation req b.session
