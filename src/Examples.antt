-- ===== src/Examples.antt =====
-- Runs of the models on concrete inputs: src/protocol.mjs and src/rpc.mjs.
pub mod Bridges
pub mod Gateways
pub mod Streams
pub mod Sockets
pub mod Builds
pub mod Runtimes
pub mod Images
pub mod Demos
use codex_official_bridge.Prelude.{
  ℕ, ◌+◌, String, ◌≡◌, refl, true, false, Option, none, some, List, [], ◌∷◌, ◌⊕◌, get_elem?, length,
  arith,
}
use codex_official_bridge.Json.{Value, null, str, obj, arr, nil, cons, field, end}
use codex_official_bridge.Text.{decimal, is_blank, utf16_length}
use codex_official_bridge.Protocol.Error.{Thrown, ok, ◌>>=◌}
use codex_official_bridge.Protocol.Request.{
  Tool, Request, validate_request, tools_of, validate_tool, is_tool_name,
}
use codex_official_bridge.Protocol.Valid.{IsValid, validate_request-IsValid}
use codex_official_bridge.Protocol.Tools.{
  find_tool, dynamic_tools, DynamicTool, Describes, find_tool-dynamic_tools,
}
use codex_official_bridge.Protocol.Segment
use codex_official_bridge.Protocol.Segment.Methods as Methods
use codex_official_bridge.Protocol.Segment.Order.{Numbered, run-Numbered, IsOrdered, run-IsOrdered}
use codex_official_bridge.Protocol.Segment.Log.{deltas, Truthful}
use codex_official_bridge.Protocol.Segment.Streaming.{streamed_text}
use codex_official_bridge.Rpc.{Rpc, Event, new as new_client}
use codex_official_bridge.Rpc.Process.{spawned}
use codex_official_bridge.Rpc.Lines.{Line, on_data}
use codex_official_bridge.Rpc.Framing.{IsClient, on_data-append}
use codex_official_bridge.Rpc.Steps.{Step, starts, requests, reads, closes, run}
use codex_official_bridge.Rpc.Settlement.{count_pending, count_settled, issued}
use codex_official_bridge.Rpc.ExactlyOnce.{run-once}

abbrev parameters : Value
parameters = obj (field "type" (str "object") end)

abbrev read_tool : Tool
read_tool = record { name = "read"; description = "Read a file"; parameters = parameters }

abbrev write_tool : Tool
write_tool = record { name = "write"; description = ""; parameters = parameters }

abbrev body : Value
body = obj (
    field "model" (str "m") (
      field "input" (str "hello") (
        field "tools"
          (arr (
            cons
              (obj (
                field "type" (str "function")
                  (field "name" (str "write") (field "parameters" parameters end))))
              nil))
          end)))

abbrev request : Request
request = record {
  model = some "m";
  text = some "hello";
  tool_output = none;
  tools = some (write_tool ∷ []);
  instructions = none;
  effort = none;
  previous_id = none;
  stream = false;
}

validate_request_run : validate_request body none ≡ ok request
unfolding validate_request ◌>>=◌ is_blank utf16_length tools_of validate_tool is_tool_name
validate_request_run = refl

validate_request-IsValid_example : IsValid request
validate_request-IsValid_example = validate_request-IsValid body none request validate_request_run

abbrev both_tools : List Tool
both_tools = read_tool ∷ write_tool ∷ []

find_tool-dynamic_tools_example :
    (length (dynamic_tools both_tools) ≡ length both_tools)
    × ((i : ℕ) (d : DynamicTool)
        → get_elem? (dynamic_tools both_tools) i ≡ some d
        → (tool : Tool) × (find_tool both_tools d.name ≡ some tool)
          × (get_elem? both_tools i ≡ some tool)
          × Describes tool d)
find_tool-dynamic_tools_example = find_tool-dynamic_tools both_tools

abbrev quiet_sink : List (ℕ × Segment.Event) → ℕ × Segment.Event → Option Thrown
quiet_sink log e = none

abbrev uuid : ℕ → String
uuid n = decimal n

abbrev calls : List Methods.Method
calls =
    Methods.starts
    ∷ Methods.deltas (str "a") "Hel"
    ∷ Methods.deltas (str "a") "lo"
    ∷ Methods.completes (obj (field "id" (str "a") (field "text" (str "Hello") end)))
    ∷ Methods.finishes null
    ∷ []

abbrev first : Segment.Segment
first = Segment.new (some "m") none quiet_sink uuid 5

run-IsOrdered_example : IsOrdered (Methods.run first calls)
unfolding Segment.new
run-IsOrdered_example = run-IsOrdered first calls tt

run-Numbered_example : Numbered (Methods.run first calls).sequence (Methods.run first calls).emitted
run-Numbered_example = run-Numbered (some "m") none quiet_sink uuid 5 calls (λ log e. refl)

streamed_text_example :
    ((i : ℕ) (m : Segment.Message)
      → get_elem? (Methods.run first calls).response.output i ≡ some (Segment.message m)
      → m.text ≡ deltas i (Methods.run first calls).emitted)
    × Truthful (Methods.run first calls).emitted
streamed_text_example = streamed_text (some "m") none quiet_sink uuid 5 calls (λ log e. refl)

-- A client on which nobody listens, and whose lines are all blank.
abbrev deaf : Event → Rpc → Rpc
deaf e s = s

abbrev blanks : List ℕ → Line
blanks bytes = Line.blank

deaf-IsClient : IsClient deaf
deaf-IsClient = record { buffer = λ e s h. h; stays = λ e s h. h }

on_data-append_example :
    on_data deaf blanks 8 (65 ∷ 10 ∷ 66 ∷ []) new_client
    ≡ on_data deaf blanks 8 (10 ∷ 66 ∷ []) (on_data deaf blanks 8 (65 ∷ []) new_client)
unfolding new_client
on_data-append_example =
    on_data-append deaf blanks 8 deaf-IsClient (65 ∷ []) (10 ∷ 66 ∷ []) new_client (omega arith)

abbrev steps : List Step
steps = starts spawned 100 ∷ requests "thread/start" null 100 ∷ reads (65 ∷ 10 ∷ []) ∷ closes ∷ []

run-once_example :
    ((i : ℕ)
      → count_pending i (run deaf blanks 8 new_client steps).pending
          + count_settled i (run deaf blanks 8 new_client steps).settled
        ≡ issued (run deaf blanks 8 new_client steps).next_id i)
    × ((run deaf blanks 8 new_client steps).closed ≡ true
        → (i : ℕ)
        → count_settled i (run deaf blanks 8 new_client steps).settled
          ≡ issued (run deaf blanks 8 new_client steps).next_id i)
run-once_example = run-once deaf blanks 8 steps (λ e s h. h)
