-- ===== src/Bridge.antt =====
-- src/bridge.mjs: `CodexBridge`, one session over one app-server. This file has its state;
-- `Bridge.Ending` ends responses and sessions, `Bridge.Events` handles what the app-server sends,
-- `Bridge.Checks` and `Bridge.Respond` start a response, `Bridge.Driving` drives it, and `Bridge.Steps` is everything that can happen.
pub mod Ending
pub mod Events
pub mod Checks
pub mod Respond
pub mod Driving
pub mod Steps
pub mod Returning
pub mod Ended
pub mod Guarded
pub mod Strange
pub mod Conflict
pub mod Refused
pub mod Continued
use codex_official_bridge.Prelude.{
  ℕ, suc, String, Bool, true, false, Option, none, some, List, [], ◌∷◌,
}
use codex_official_bridge.Json.{Value}
use codex_official_bridge.Protocol.Error.{Thrown, Result, ok, throw, BridgeError}
use codex_official_bridge.Protocol.Request.{Tool, Request}
use codex_official_bridge.Protocol.Segment.{Segment, Response, Event}
use codex_official_bridge.Action.{Action}
use codex_official_bridge.Rpc.{Rpc, Sent, sent, refused, Promise, respond, respond_error, request}

-- A notification or a request of the app-server.
pub record Notice : Type 0 where
  pub method : String
  pub params : Value

pub record ToolCall : Type 0 where
  pub rpc_id : Value
  pub client_call_id : String
  pub name : String
  pub args : Value

pub record Session : Type 0 where
  -- Which object this is: `===` compares it.
  pub serial : ℕ
  pub model : Option String
  pub tools : List Tool
  pub instructions : String
  pub effort : Option String
  pub thread_id : Value
  pub turn_id : Value
  pub last_response_id : Option String
  pub pending : List ToolCall
  pub waiting : Option ToolCall
  pub buffered : List Notice
  pub seen_calls : List String
  pub last_error : Option BridgeError

-- `settled` with the promise's end is `result`: the source sets both together.
pub record Operation : Type 0 where
  pub serial : ℕ
  pub segment : Segment
  pub result : Option (Result Response)

-- What a call of `respond` hands over: the request, and `onEvent`.
pub record Job : Type 0 where
  pub request : Request
  pub on_event : List (ℕ × Event) → ℕ × Event → Option Thrown

-- Where a run of `drive` waits.
pub data Stage : Type 0 where
  starting thread_starting : Stage
  turn_starting : (thread_id : Value) → Stage

pub record Drive : Type 0 where
  pub request : Request
  pub session : ℕ
  pub operation : ℕ
  pub stage : Stage

pub record Bridge : Type 0 where
  pub rpc : Rpc
  pub session : Option Session
  pub operation : Option Operation
  pub busy : Bool
  pub closed : Bool
  -- `sessionTimer` is set.
  pub timer : Bool
  -- `signal.aborted` of the call that runs.
  pub aborted : Bool
  -- A call of `respond` that waits for the release of the session before it.
  pub preparing : Option Job
  pub drives : List Drive
  -- The threads of released sessions whose interrupt is under way.
  pub leaving : List Value
  pub next_serial : ℕ
  -- How many ids `randomUUID` gave to calls.
  pub calls : ℕ
  -- The ends of the calls of `respond`, the newest first.
  pub returned : List (Result Response)

unfoldable pub new : Rpc → Bridge
new rpc = record {
  rpc = rpc;
  session = none;
  operation = none;
  busy = false;
  closed = false;
  timer = false;
  aborted = false;
  preparing = none;
  drives = [];
  leaving = [];
  next_serial = 0;
  calls = 0;
  returned = [];
}

-- What the program takes from outside: the directory and settings of a thread, the UUIDs of calls
-- and of the items of a segment, and the clock.
pub record World : Type 0 where
  pub default_model : Option String
  pub thread_config : Value
  pub cwd : String
  pub call_uuid : ℕ → String
  pub item_uuid : ℕ → ℕ → String
  pub now : ℕ → ℕ
  pub rpc_timeout_ms : ℕ

abbrev after_send : Bridge → Sent → Result (Unit {0}) × Bridge
after_send b (sent t) = (ok tt, record b { rpc = t })
after_send b (refused e) = (throw Thrown.other, b)

-- `this.rpc.respond(id, result)`, which throws an error of its own.
unfoldable pub rpc_respond : Value → Value → Action Bridge (Unit {0})
rpc_respond id result b = after_send b (respond id result b.rpc)

unfoldable pub rpc_respond_error : Value → Value → String → Action Bridge (Unit {0})
rpc_respond_error id code message b = after_send b (respond_error id code message b.rpc)

-- `this.rpc.request(method, params)`: its promise ends in a later step.
unfoldable pub rpc_request : String → Value → ℕ → Action Bridge (Unit {0})
rpc_request method params timeout_ms b =
    (ok tt, record b { rpc = (request method params timeout_ms b.rpc).1 })
