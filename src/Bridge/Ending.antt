-- ===== src/Bridge/Ending.antt =====
-- src/bridge.mjs: `complete`, `fail`, `releaseSession` and `flushTool`.
use codex_official_bridge.Prelude.{
  ℕ, String, Bool, true, false, not, ◌&&◌, Option, none, some, List, [], ◌∷◌, if◌then◌else◌,
}
use codex_official_bridge.Json.{Value, null, str, bool, obj, arr, nil, cons, field, end, is_truthy}
use codex_official_bridge.Protocol.Error.{Thrown, Result, ok, throw}
use codex_official_bridge.Protocol.Segment.{Segment, Response, finish, tool_call}
use codex_official_bridge.Protocol.Segment as Segments
use codex_official_bridge.Action.{
  Action, pure, gets, modify, when, for_each, try_catch, ◌>>=◌, ◌>>◌,
}
use codex_official_bridge.Bridge.{Bridge, Session, Operation, ToolCall, rpc_respond, rpc_request}

module _ {A : Type 0} where
  abbrev pub in_segment : Action Segment A → Bridge → Option Operation → Result A × Bridge
  in_segment m b none = (throw Thrown.other, b)
  in_segment m b (some op) =
      let (r, s) = m op.segment in (r, record b { operation = some (record op { segment = s }) })

  -- A method of `this.operation.segment`.
  unfoldable pub on_segment : Action Segment A → Action Bridge A
  on_segment m b = in_segment m b b.operation

abbrev pub is_unsettled : Option Operation → Bool
is_unsettled none = false
is_unsettled (some op) = elim op.result [ none ↦ true | some r ↦ false ]

abbrev pub with_result : Result Response → Option Operation → Option Operation
with_result r none = none
with_result r (some op) = some (record op { result = some r })

-- `op.settled = true`, with `op.resolve` or `op.reject`.
abbrev pub settle : Result Response → Bridge → Bridge
settle r b = record b { operation = with_result r b.operation }

abbrev set_last : Response → Bridge → Option Session → Result (Unit {0}) × Bridge
set_last response b none = (throw Thrown.other, b)
set_last response b (some s) =
    (ok tt, record b { session = some (record s { last_response_id = some response.id }) })

-- `this.session.lastResponseId = response.id`, a `TypeError` where there is no session.
unfoldable pub set_last_response : Response → Action Bridge (Unit {0})
set_last_response response b = set_last response b b.session

-- `complete(usage)`.
unfoldable pub complete : Value → Action Bridge (Unit {0})
complete usage = do
  unsettled ← gets (λ b. is_unsettled b.operation)
  when unsettled do
    response ← on_segment (finish usage)
    set_last_response response
    modify (settle (ok response))

abbrev pub outstanding : Session → List ToolCall
outstanding s = elim s.waiting [ none ↦ s.pending | some call ↦ call ∷ s.pending ]

abbrev pub text_answer : String → Bool → Value
text_answer text success = obj (
    field "contentItems"
      (arr (cons (obj (field "type" (str "inputText") (field "text" (str text) end))) nil))
      (field "success" (bool success) end))

unfoldable pub cancel_call : ToolCall → Action Bridge (Unit {0})
cancel_call call =
    try_catch (rpc_respond call.rpc_id (text_answer "Client tool cancelled; do not retry." false))
      (λ e. pure tt)

unfoldable pub unsubscribe : Value → ℕ → Action Bridge (Unit {0})
unsubscribe thread_id timeout_ms =
    rpc_request "thread/unsubscribe" (obj (field "threadId" thread_id end)) timeout_ms

-- The interrupt, behind which the unsubscription waits.
unfoldable pub interrupt : Session → Action Bridge (Unit {0})
interrupt s = do
  rpc_request "turn/interrupt" (obj (field "threadId" s.thread_id (field "turnId" s.turn_id end)))
      3000
  modify (λ b. record b { leaving = s.thread_id ∷ b.leaving })

-- The end of `releaseSession`.
unfoldable pub leave_thread : Session → Action Bridge (Unit {0})
leave_thread s =
    if is_truthy s.thread_id && is_truthy s.turn_id
    then interrupt s
    else when (is_truthy s.thread_id) (unsubscribe s.thread_id 3000)

abbrev pub release_from : Option Session → Action Bridge (Unit {0})
release_from none = pure tt
release_from (some s) = do for_each cancel_call (outstanding s); leave_thread s

-- `releaseSession()`, up to its wait for the interrupt.
unfoldable pub release_session : Action Bridge (Unit {0})
release_session = do
  session ← gets (λ b. b.session)
  modify (λ b. record b { timer = false; session = none })
  release_from session

-- `fail(error)`.
unfoldable pub fail : Thrown → Action Bridge (Unit {0})
fail e = do
  unsettled ← gets (λ b. is_unsettled b.operation)
  when unsettled
      do try_catch (on_segment (Segments.fail e)) (λ caught. pure tt); modify (settle (throw e))
  release_session

abbrev pub is_open_segment : Option Operation → Bool
is_open_segment none = false
is_open_segment (some op) = not op.segment.finished

abbrev take_call : Session → List ToolCall → Action Bridge (Unit {0})
take_call s [] = pure tt
take_call s (call ∷ rest) = do
  modify (λ b. record b { session = some (record s { waiting = some call; pending = rest }) })
  on_segment (tool_call call.client_call_id call.name call.args)
  complete null

abbrev flush_from : Option Session → Action Bridge (Unit {0})
flush_from none = pure tt
flush_from (some s) = elim s.waiting [ none ↦ take_call s s.pending | some call ↦ pure tt ]

-- `flushTool()`.
unfoldable pub flush_tool : Action Bridge (Unit {0})
flush_tool = do
  session ← gets (λ b. b.session)
  is_open ← gets (λ b. is_open_segment b.operation)
  when is_open (flush_from session)
