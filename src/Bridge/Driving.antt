-- ===== src/Bridge/Driving.antt =====
-- src/bridge.mjs: `drive`, cut at its waits. A run of it is an entry of `drives`.
use codex_official_bridge.Prelude.{
  String, Bool, true, false, not, ◌&&◌, Option, none, some, List, [], ◌∷◌, ◌==◌, nat_eq,
  if◌then◌else◌,
}
use codex_official_bridge.Json.{
  Value, undefined, str, bool, arr, obj, Items, nil, cons, Fields, field, end, get, is_truthy,
  coalesce, strict_eq,
}
use codex_official_bridge.Protocol.Error.{Thrown, bridge, other, bridge_error}
use codex_official_bridge.Protocol.Request.{ToolOutput}
use codex_official_bridge.Protocol.Tools.{DynamicTool, dynamic_tools}
use codex_official_bridge.Action.{
  Action, pure, raise, gets, modify, when, for_each, try_catch, ◌>>=◌, ◌>>◌,
}
use codex_official_bridge.Rpc.{Outcome, resolved, rejected}
use codex_official_bridge.Bridge.{
  Bridge, Session, Operation, ToolCall, Stage, starting, thread_starting, turn_starting, Drive,
  World, rpc_respond, rpc_request,
}
use codex_official_bridge.Bridge.Ending.{
  fail, flush_tool, is_unsettled, is_open_segment, text_answer, unsubscribe,
}
use codex_official_bridge.Bridge.Events.{
  upstream_event, bridge_or, is_nullish, consume_notification,
}

-- `this.session === session`, with the session that is the same.
unfoldable pub same_session : Drive → Option Session → Option Session
same_session d none = none
same_session d (some s) = if nat_eq s.serial d.session then some s else none

abbrev is_operation : Drive → Option Operation → Bool
is_operation d none = false
is_operation d (some op) = nat_eq op.serial d.operation

abbrev pub rpc_failed : Thrown
rpc_failed = bridge (
    bridge_error 502 "codex_rpc_error"
      "Official Codex rejected an operation. Run npm run doctor and verify the installed CLI version."
      none)

-- The `catch` behind `drive`.
unfoldable pub drive_failed : Drive → Thrown → Action Bridge (Unit {0})
drive_failed d e = do
  current ← gets (λ b. is_operation d b.operation && is_unsettled b.operation)
  when current (fail (bridge_or rpc_failed e))

abbrev wait_at : Drive → Stage → Action Bridge (Unit {0})
wait_at d stage = modify (λ b. record b { drives = record d { stage = stage } ∷ b.drives })

abbrev tool_values : List DynamicTool → Items
tool_values [] = nil
tool_values (t ∷ ts) =
    cons
      (obj (
        field "type" (str "function") (
          field "name" (str t.name)
            (field "description" (str t.description) (field "inputSchema" t.input_schema end)))))
      (tool_values ts)

abbrev value_of : Option String → Value
value_of none = undefined
value_of (some s) = str s

abbrev or_default : String → String
or_default s = if s == "" then "Assist the user with their request." else s

abbrev control_instructions : String
control_instructions =
    "The registered bridge_fn_* functions run on the client computer. Use these functions for client operations. Do not execute commands, read files, or use other tools on this server. Wait for function results; never invent them."

abbrev thread_settings : World → Session → Fields
thread_settings world s = field "approvalPolicy" (str "never") (
    field "sandbox" (str "read-only") (
      field "personality" (str "none") (
        field "baseInstructions" (str (or_default s.instructions)) (
          field "developerInstructions" (str control_instructions) (
            field "dynamicTools" (arr (tool_values (dynamic_tools s.tools)))
              (field "config" world.thread_config end))))))

-- The parameters of `thread/start`.
unfoldable pub thread_start_params : World → Session → Value
thread_start_params world s = obj (
    field "model" (value_of s.model) (
      field "modelProvider" (str "openai") (
        field "allowProviderModelFallback" (bool false) (
          field "cwd" (str world.cwd) (
            field "environments" (arr nil)
              (field "ephemeral" (bool true) (thread_settings world s)))))))

abbrev effort_fields : Option String → Fields
effort_fields none = end
effort_fields (some effort) = field "effort" (str effort) end

unfoldable pub turn_start_params : Session → Option String → Value
turn_start_params s text = obj (
    field "threadId" s.thread_id (
      field "input"
        (arr (cons (obj (field "type" (str "text") (field "text" (value_of text) end))) nil))
        (field "environments" (arr nil) (effort_fields s.effort))))

abbrev answer_call : Session → ToolOutput → Option ToolCall → Action Bridge (Unit {0})
answer_call s out none = raise other
answer_call s out (some call) = do
  modify (λ b. record b { session = some (record s { waiting = none }) })
  rpc_respond call.rpc_id (text_answer out.output true)
  modify (λ b. record b { session = some (record s { waiting = none; buffered = [] }) })
  for_each consume_notification s.buffered
  flush_tool

module _ (world : World) where
  -- The end of `drive`: the tool result, or a turn.
  unfoldable pub submit : Drive → Session → Action Bridge (Unit {0})
  submit d s = elim d.request.tool_output [
    | some out ↦ answer_call s out s.waiting
    | none ↦ do
      rpc_request "turn/start" (turn_start_params s d.request.text) world.rpc_timeout_ms
      wait_at d (turn_starting s.thread_id)
  ]

  -- `this.rpc.start()` is done, and the session is the same.
  unfoldable pub after_start : Drive → Session → Action Bridge (Unit {0})
  after_start d s = if is_truthy s.thread_id then submit d s else (do
    rpc_request "thread/start" (thread_start_params world s) world.rpc_timeout_ms
    wait_at d thread_starting)

  -- `started.model && started.model !== session.model`.
  abbrev other_model : Value → Session → Bool
  other_model started s =
      is_truthy (get started "model") && not (strict_eq (get started "model") (value_of s.model))

  mismatch : Thrown
  mismatch = bridge (
      bridge_error 502 "model_mismatch"
        "Codex selected a different model; fallback is not accepted." none)

  -- The answer to `thread/start`, and the session is the same.
  unfoldable pub thread_started : Drive → Value → Session → Action Bridge (Unit {0})
  unfolding mismatch
  thread_started d started s =
      if is_truthy (get (get started "thread") "id")
      then (do
        modify (λ b. record b {
          session = some (record s { thread_id = get (get started "thread") "id" });
        })
        if other_model started s
            then raise mismatch
            else submit d (record s { thread_id = get (get started "thread") "id" }))
      else raise (upstream_event "Codex returned no thread ID.")

  -- The answer to `thread/start` comes after the session ended.
  unfoldable pub thread_late : Value → Action Bridge (Unit {0})
  thread_late started =
      when (is_truthy (get (get started "thread") "id"))
        (unsubscribe (get (get started "thread") "id") world.rpc_timeout_ms)

  unfoldable pub turn_late : Value → Value → Action Bridge (Unit {0})
  turn_late thread_id started = when (is_truthy (get (get started "turn") "id")) (
      rpc_request "turn/interrupt"
        (obj (field "threadId" thread_id (field "turnId" (get (get started "turn") "id") end)))
        world.rpc_timeout_ms)

  -- The answer to `turn/start`, and the session is the same.
  unfoldable pub turn_started : Drive → Value → Session → Action Bridge (Unit {0})
  turn_started d started s = do
    current ← gets (λ b. is_operation d b.operation && is_open_segment b.operation)
    when current (
        if is_truthy (get (get started "turn") "id")
        then modify (λ b. record b {
          session =
              some (record s { turn_id = coalesce s.turn_id (get (get started "turn") "id") });
        })
        else raise (upstream_event "Codex returned no turn ID."))

  abbrev go_on : Drive → Stage → Value → Option Session → Action Bridge (Unit {0})
  go_on d starting v none = pure tt
  go_on d starting v (some s) = after_start d s
  go_on d thread_starting v none = thread_late v
  go_on d thread_starting v (some s) = thread_started d v s
  go_on d (turn_starting thread_id) v none = turn_late thread_id v
  go_on d (turn_starting thread_id) v (some s) = turn_started d v s

  -- What a run of `drive` waits for has ended; only the answers of requests are looked into, and
  -- there `null` and `undefined` have no properties.
  unfoldable pub go_on_with : Drive → Outcome → Action Bridge (Unit {0})
  go_on_with d (rejected e) = raise other
  go_on_with d (resolved v) = do
    session ← gets (λ b. same_session d b.session)
    elim d.stage [
      | starting ↦ go_on d starting v session
      | stage ↦ if is_nullish v then raise other else go_on d stage v session
    ]

  unfoldable pub continue : Drive → Outcome → Action Bridge (Unit {0})
  continue d outcome = try_catch (go_on_with d outcome) (drive_failed d)
