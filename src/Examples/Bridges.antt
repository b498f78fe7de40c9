-- ===== src/Examples/Bridges.antt =====
-- Runs of the model of src/bridge.mjs on concrete inputs.
use codex_official_bridge.Prelude.{
  ℕ, ◌≡◌, refl, true, false, Option, none, some, List, [], ◌∷◌, inl,
}
use codex_official_bridge.Json.{null, str, obj, field, end, get}
use codex_official_bridge.Text.{decimal}
use codex_official_bridge.Protocol.Error.{Thrown, throw, ◌>>=◌}
use codex_official_bridge.Protocol.Request.{Request, validate_request}
use codex_official_bridge.Protocol.Segment as Segment
use codex_official_bridge.Rpc.{new as new_client}
use codex_official_bridge.Bridge.{Bridge, Session, ToolCall, Notice, World, new as new_bridge}
use codex_official_bridge.Bridge.Ending.{fail}
use codex_official_bridge.Bridge.Events.{on_server_request}
use codex_official_bridge.Bridge.Checks.{admit, check_continuation, check_session}
use codex_official_bridge.Bridge.Respond.{respond}
use codex_official_bridge.Bridge.Ended.{IsEnded, fail-IsEnded}
use codex_official_bridge.Bridge.Steps.{expires, returns, run}
use codex_official_bridge.Bridge.Returning.{HasReturned, run-HasReturned}
use codex_official_bridge.Bridge.Strange.{repeated_call}
use codex_official_bridge.Bridge.Guarded.{on_server_request-IsEnded}
use codex_official_bridge.Bridge.Continued.{Admits, admit-Admits}
use codex_official_bridge.Bridge.Refused.{malformed, respond-unchanged}

abbrev call : ToolCall
call = record { rpc_id = str "7"; client_call_id = "call_bridge_0"; name = "read"; args = null }

-- A session that waits for its tool result.
abbrev session : Session
session = record {
  serial = 0;
  model = some "m";
  tools = [];
  instructions = "";
  effort = none;
  thread_id = str "t";
  turn_id = str "u";
  last_response_id = some "r1";
  pending = [];
  waiting = some call;
  buffered = [];
  seen_calls = "c" ∷ [];
  last_error = none;
}

abbrev waiting_bridge : Bridge
waiting_bridge = record (new_bridge new_client) { session = some session; next_serial = 1 }

abbrev world : World
world = record {
  default_model = none;
  thread_config = null;
  cwd = "/work";
  call_uuid = λ n. decimal n;
  item_uuid = λ s n. decimal n;
  now = λ n. 0;
  rpc_timeout_ms = 20000;
}

fail-IsEnded_example : IsEnded (fail Thrown.other waiting_bridge).1
fail-IsEnded_example = fail-IsEnded Thrown.other waiting_bridge

-- A call with the id of one that was there before.
abbrev same_call : Notice
same_call = record {
  method = "item/tool/call";
  params = obj (field "threadId" (str "t") (field "callId" (str "c") end));
}

on_server_request-IsEnded_example :
    IsEnded (on_server_request world same_call (str "9") waiting_bridge).1
unfolding get
on_server_request-IsEnded_example =
    on_server_request-IsEnded world same_call (str "9") session waiting_bridge refl refl
      (repeated_call "c" refl (inl refl))

abbrev command : Notice
command = record {
  method = "item/started";
  params = obj (
      field "threadId" (str "t")
        (field "item" (obj (field "type" (str "commandExecution") end)) end));
}

abbrev result_request : Request
result_request = record {
  model = none;
  text = none;
  tool_output = some (record { call_id = "call_bridge_0"; output = "42" });
  tools = none;
  instructions = none;
  effort = none;
  previous_id = some "r1";
  stream = false;
}

admit-Admits_example :
    (waiting_bridge.closed ≡ false)
    × (waiting_bridge.busy ≡ false)
    × (false ≡ false)
    × Admits (some "r1") result_request.tool_output (some session)
unfolding admit check_continuation check_session ◌>>=◌ new_bridge
admit-Admits_example = admit-Admits result_request false waiting_bridge refl

abbrev silent : List (ℕ × Segment.Event) → ℕ × Segment.Event → Option Thrown
silent log e = none

respond-unchanged_example :
    (e : Thrown) × (respond world null silent false waiting_bridge ≡ (throw e, waiting_bridge))
unfolding validate_request ◌>>=◌
respond-unchanged_example =
    respond-unchanged world null silent false waiting_bridge (malformed _ refl)

-- A call of `respond` that runs.
abbrev busy_bridge : Bridge
busy_bridge = record waiting_bridge {
  busy = true;
  operation = some (record {
    serial = 1;
    segment = Segment.new (some "m") none silent (λ n. decimal n) 0;
    result = none;
  });
}

run-HasReturned_example : HasReturned [] (run world busy_bridge (expires ∷ returns ∷ []))
unfolding new_bridge
run-HasReturned_example = run-HasReturned world [] expires busy_bridge refl (refl, refl)
