-- ===== src/Bridge/Events.antt =====
-- src/bridge.mjs: `onNotification`, `consumeNotification`, `onServerRequest` and
-- `consumeServerRequest`.
use codex_official_bridge.Prelude.{
  suc, ◌+◌, String, Bool, true, false, not, ◌&&◌, ◌||◌, Option, none, some, List, [], ◌∷◌, ◌++◌,
  ◌==◌, ◌⊕◌, length, ltb, includes, if◌then◌else◌,
}
use codex_official_bridge.Json.{
  Value, undefined, null, num, str, arr, nil, cons, get, is_truthy, is_text, is_string, is_object,
  strict_eq, coalesce, Number,
}
use codex_official_bridge.Protocol.Error.{
  Thrown, bridge, other, bridge_error, turn_error_to_bridge_error,
}
use codex_official_bridge.Protocol.Request.{Tool}
use codex_official_bridge.Protocol.Tools.{find_tool}
use codex_official_bridge.Protocol.Segment.{text_delta_of, complete_message}
use codex_official_bridge.Action.{Action, pure, raise, gets, modify, when, try_catch, ◌>>=◌, ◌>>◌}
use codex_official_bridge.Bridge.{Bridge, Session, ToolCall, Notice, World, rpc_respond_error}
use codex_official_bridge.Bridge.Ending.{on_segment, complete, fail, flush_tool, is_open_segment}

abbrev pub upstream_event : String → Thrown
upstream_event message = bridge (bridge_error 502 "invalid_upstream_event" message none)

abbrev pub unsupported : String → Thrown
unsupported message = bridge (bridge_error 502 "unsupported_server_action" message none)

-- `error instanceof BridgeError ? error : new BridgeError(...)`.
abbrev pub bridge_or : Thrown → Thrown → Thrown
bridge_or default (bridge e) = bridge e
bridge_or default other = default

-- `s?.threadId`, where there is a session: the notice is about its thread.
abbrev pub is_about : Session → Notice → Bool
is_about s n = strict_eq (get n.params "threadId") s.thread_id

abbrev put_session : Session → Action Bridge (Unit {0})
put_session s = modify (λ b. record b { session = some s })

abbrev pub is_nullish : Value → Bool
is_nullish undefined = true
is_nullish null = true
is_nullish _ = false

-- `item/agentMessage/delta`.
abbrev take_delta : (delta item_id : Value) → Action Bridge (Unit {0})
take_delta (str delta) (str item_id) = on_segment (text_delta_of (str item_id) delta)
take_delta _ _ = raise (upstream_event "Malformed text event.")

-- `turn/completed`, where `turn` is no object only if it is `null` or absent.
unfoldable pub complete_turn : Session → Value → Action Bridge (Unit {0})
complete_turn s turn =
    if is_nullish turn
    then raise other
    else if is_truthy s.turn_id && not (strict_eq (get turn "id") s.turn_id)
    then pure tt
    else if not (is_text "completed" (get turn "status"))
    then raise (bridge (turn_error_to_bridge_error (get turn "error")))
    else elim s.waiting [
      | some call ↦ raise (upstream_event "Codex completed with an unanswered client tool.")
      | none ↦ elim s.pending [
        | call ∷ calls ↦ raise (upstream_event "Codex completed with an unanswered client tool.")
        | [] ↦ do put_session (record s { turn_id = null }); complete null
      ]
    ]

abbrev consume_from : Notice → Option Session → Action Bridge (Unit {0})
consume_from n none = pure tt
consume_from n (some s) =
    if n.method == "item/agentMessage/delta"
    then take_delta (get n.params "delta") (get n.params "itemId")
    else if n.method == "item/completed"
    then when (is_text "agentMessage" (get (get n.params "item") "type"))
        (on_segment (complete_message (get n.params "item")))
    else if n.method == "turn/completed"
    then complete_turn s (get n.params "turn")
    else pure tt

-- `consumeNotification(event)`.
unfoldable pub consume_notification : Notice → Action Bridge (Unit {0})
consume_notification n = do
  session ← gets (λ b. b.session)
  is_open ← gets (λ b. is_open_segment b.operation)
  when is_open (consume_from n session)

abbrev pub blocked_items : List String
blocked_items =
    "commandExecution" ∷ "fileChange" ∷ "mcpToolCall" ∷ "webSearch" ∷ "imageGeneration"
    ∷ "collabAgentToolCall" ∷ "dynamicToolCallError" ∷ []

abbrev pub is_blocked : Value → Bool
is_blocked (str type) = includes blocked_items type
is_blocked _ = false

abbrev passed_on : List String
passed_on = "item/agentMessage/delta" ∷ "item/completed" ∷ "turn/completed" ∷ []

-- The event that comes while no segment is open.
unfoldable pub buffer : Session → Notice → Action Bridge (Unit {0})
buffer s n = do
  put_session (record s { buffered = s.buffered ++ n ∷ [] })
  when (ltb 4096 (length s.buffered + 1)) (
      fail (
        bridge (
          bridge_error 502 "upstream_buffer_limit"
            "Too many events arrived while waiting for a client tool." none)))

-- The body of the `try` of `onNotification`.
unfoldable pub handle_notification : Session → Notice → Action Bridge (Unit {0})
handle_notification s n =
    if n.method == "turn/started"
    then (if is_nullish (get n.params "turn")
        then raise other
        else put_session (record s { turn_id = get (get n.params "turn") "id" }))
    else if n.method == "thread/tokenUsage/updated"
    then pure tt
    else if n.method == "error"
    then (if is_truthy (get n.params "willRetry")
        then pure tt
        else fail (bridge (turn_error_to_bridge_error (get n.params "error"))))
    else if is_truthy (get n.params "turnId")
        && is_truthy s.turn_id
        && not (strict_eq (get n.params "turnId") s.turn_id)
    then pure tt
    else if is_blocked (get (get n.params "item") "type")
    then fail (unsupported "Codex attempted an unsupported server-side tool.")
    else if not (includes passed_on n.method)
    then pure tt
    else do
      is_open ← gets (λ b. is_open_segment b.operation)
      if is_open then consume_notification n else buffer s n

abbrev pub notified : Notice → Option Session → Action Bridge (Unit {0})
notified n none = pure tt
notified n (some s) =
    if is_about s n
    then try_catch (handle_notification s n)
        (λ e. fail (bridge_or (upstream_event "Malformed Codex event.") e))
    else pure tt

-- `onNotification(event)`.
unfoldable pub on_notification : Notice → Action Bridge (Unit {0})
on_notification n = do session ← gets (λ b. b.session); notified n session

-- The text that a regular expression is matched with: a list of one text is that text, and what
-- else is no text has no `bridge_fn_` at its front.
abbrev pub matched_text : Value → String
matched_text (str s) = s
matched_text (arr (cons v nil)) = matched_text v
matched_text _ = ""

abbrev pub call_id_of : Value → Option String
call_id_of (str id) = some id
call_id_of _ = none

-- The tool and the call id of a well-formed call.
unfoldable pub accepted_call : Session → Value → Option (Tool × String)
accepted_call s p = elim (find_tool s.tools (matched_text (get p "tool"))) [
  | none ↦ none
  | some tool ↦ elim (call_id_of (get p "callId")) [
    | none ↦ none
    | some id ↦
        if is_truthy (get p "namespace")
          || not (is_string (get p "turnId"))
          || not (is_object (get p "arguments"))
          || includes s.seen_calls id
          || (is_truthy s.turn_id && not (strict_eq s.turn_id (get p "turnId")))
        then none
        else some (tool, id)
  ]
]

module _ (world : World) where
  unfoldable pub accept_call : Session → Notice → Value → Tool → String → Action Bridge (Unit {0})
  accept_call s n id tool call_id = do
    count ← gets (λ b. b.calls)
    let call : ToolCall = record {
      rpc_id = id;
      client_call_id = "call_bridge_" ⊕ world.call_uuid count;
      name = tool.name;
      args = get n.params "arguments";
    }
    modify (λ b. record b { calls = suc b.calls })
    put_session (record s {
      turn_id = coalesce s.turn_id (get n.params "turnId");
      seen_calls = call_id ∷ s.seen_calls;
      pending = s.pending ++ call ∷ [];
    })
    flush_tool

  abbrev pub take_call :
      Session → Notice → Value → Option (Tool × String) → Action Bridge (Unit {0})
  take_call s n id none = do
    rpc_respond_error id (num (Number.decimal "-32602"))
        "Unknown or malformed client function call."
    fail (
        bridge (
          bridge_error 502 "invalid_tool_call"
            "Codex requested an unknown or malformed client tool." none))
  take_call s n id (some (tool, call_id)) = accept_call s n id tool call_id

  abbrev pub refuse : Value → Bool → Action Bridge (Unit {0})
  refuse id about_session = do
    rpc_respond_error id (num (Number.decimal "-32601"))
        "This bridge permits registered client function calls only."
    when about_session
        (fail (unsupported "Codex requested a server-side action not supported by this bridge."))

  abbrev pub request_from : Notice → Value → Option Session → Action Bridge (Unit {0})
  request_from n id none = refuse id false
  request_from n id (some s) =
      if n.method == "item/tool/call" && is_about s n
      then take_call s n id (accepted_call s n.params)
      else refuse id (is_about s n)

  -- `consumeServerRequest(event)`, with the id of the request.
  unfoldable pub consume_server_request : Notice → Value → Action Bridge (Unit {0})
  consume_server_request n id = do session ← gets (λ b. b.session); request_from n id session

  -- `onServerRequest(event)`.
  unfoldable pub on_server_request : Notice → Value → Action Bridge (Unit {0})
  on_server_request n id =
      try_catch (consume_server_request n id)
        (λ e. fail (bridge_or (upstream_event "Malformed Codex tool request.") e))
