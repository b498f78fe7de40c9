-- ===== src/Bridge/Respond.antt =====
-- src/bridge.mjs: `respond`, cut at its waits.
use codex_official_bridge.Prelude.{
  ℕ, suc, String, Bool, true, false, Option, none, some, List, [], ◌∷◌, if◌then◌else◌,
}
use codex_official_bridge.Json.{Value, null}
use codex_official_bridge.Protocol.Error.{Thrown, bridge, other, bridge_error, Result, ok, throw}
use codex_official_bridge.Protocol.Request.{Tool, Request, validate_request}
use codex_official_bridge.Protocol.Segment.{Segment, Event, Response, start}
use codex_official_bridge.Protocol.Segment as Segments
use codex_official_bridge.Action.{Action, pure, raise, gets, modify, when, try_catch, ◌>>=◌, ◌>>◌}
use codex_official_bridge.Bridge.{Bridge, Session, Operation, Job, starting, World}
use codex_official_bridge.Bridge.Ending.{on_segment, fail, release_session, is_unsettled}
use codex_official_bridge.Bridge.Checks.{admit}

abbrev or_empty : Option String → String
or_empty none = ""
or_empty (some s) = s

abbrev tools_or_empty : Option (List Tool) → List Tool
tools_or_empty none = []
tools_or_empty (some tools) = tools

abbrev new_session : ℕ → Request → Session
new_session serial req = record {
  serial = serial;
  model = req.model;
  tools = tools_or_empty req.tools;
  instructions = or_empty req.instructions;
  effort = req.effort;
  thread_id = null;
  turn_id = null;
  last_response_id = none;
  pending = [];
  waiting = none;
  buffered = [];
  seen_calls = [];
  last_error = none;
}

abort_error : Thrown
abort_error = bridge (
    bridge_error 499 "client_disconnected" "The client disconnected; the server turn was cancelled."
      none)

-- `abort`, while the listener is registered.
unfoldable pub abort : Action Bridge (Unit {0})
unfolding abort_error
abort = fail abort_error

module _ (world : World) where
  abbrev begin_drive : Request → Option Session → ℕ → Bridge → Bridge
  begin_drive req none serial b = b
  begin_drive req (some s) serial b = record b {
    drives =
        record { request = req; session = s.serial; operation = serial; stage = starting }
        ∷ b.drives;
  }

  abbrev open_for : Job → Session → Action Bridge (Unit {0})
  open_for job s = do
    serial ← gets (λ b. b.next_serial)
    modify (λ b. record b {
      next_serial = suc serial;
      operation = some (record {
        serial = serial;
        segment =
            Segments.new s.model job.request.previous_id job.on_event (world.item_uuid serial)
              (world.now serial);
        result = none;
      });
    })
    try_catch (on_segment start) fail
    aborted ← gets (λ b. b.aborted)
    unsettled ← gets (λ b. is_unsettled b.operation)
    if aborted
        then abort
        else when unsettled (modify (λ b. begin_drive job.request (some s) serial b))

  abbrev open_from : Job → Option Session → Action Bridge (Unit {0})
  open_from job none = raise other
  open_from job (some s) = open_for job s

  -- `respond` from the segment to its wait for the result.
  unfoldable pub open_operation : Job → Action Bridge (Unit {0})
  open_operation job = do session ← gets (λ b. b.session); open_from job session

  -- `respond` behind its tests: a new session waits for the release of the one before.
  unfoldable pub begin : Job → Action Bridge (Unit {0})
  begin job = do
    modify (λ b. record b { busy = true; timer = false; aborted = false })
    elim job.request.previous_id [
      | none ↦ do release_session; modify (λ b. record b { preparing = some job })
      | some id ↦ open_operation job
    ]

  abbrev pub admitted : Job → Result (Unit {0}) → Action Bridge (Unit {0})
  admitted job (ok u) = begin job
  admitted job (throw e) = raise e

  abbrev pub with_request :
      (List (ℕ × Event) → ℕ × Event → Option Thrown)
      → Bool
      → Result Request
      → Action Bridge (Unit {0})
  with_request on_event aborted (throw e) = raise e
  with_request on_event aborted (ok req) = do
    verdict ← gets (admit req aborted)
    admitted (record { request = req; on_event = on_event }) verdict

  -- `respond(body, { onEvent, signal })`, up to its first wait.
  unfoldable pub respond :
      Value
      → (List (ℕ × Event) → ℕ × Event → Option Thrown)
      → (aborted : Bool) → Action Bridge (Unit {0})
  respond body on_event aborted =
      with_request on_event aborted (validate_request body world.default_model)

  abbrev prepared_from : Option Job → Action Bridge (Unit {0})
  prepared_from none = pure tt
  prepared_from (some job) = do
    modify (λ b. record b {
      preparing = none;
      session = some (new_session b.next_serial job.request);
      next_serial = suc b.next_serial;
    })
    open_operation job

  -- The session before is released.
  unfoldable pub prepared : Action Bridge (Unit {0})
  prepared = do preparing ← gets (λ b. b.preparing); prepared_from preparing

abbrev pub return_from : Option (Result Response) → Action Bridge (Unit {0})
return_from none = pure tt
return_from (some r) = modify (λ b. record b {
  busy = false;
  operation = none;
  timer = elim b.session [ none ↦ b.timer | some s ↦ true ];
  returned = r ∷ b.returned;
})

abbrev pub result_of : Option Operation → Option (Result Response)
result_of none = none
result_of (some op) = op.result

-- The `finally` of `respond`, once the result has settled.
unfoldable pub return_result : Action Bridge (Unit {0})
return_result = do result ← gets (λ b. result_of b.operation); return_from result
