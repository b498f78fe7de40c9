-- ===== src/Image/Stdio.antt =====
-- scripts/desktop-image-mcp.mjs: `serveStdio`, a JSON-RPC server over the lines of its input.
-- `JSON.parse` of a line is the platform's, and a tool call that runs ends in a step of its own.
pub mod Counts
pub mod Answering
pub mod Once
pub mod Bounds
use codex_official_bridge.Prelude.{
  ℕ, String, Bool, true, false, not, ◌&&◌, ◌||◌, Option, none, some, List, [], ◌∷◌, ◌++◌, length,
  ltb, nat_eq, if◌then◌else◌,
}
use codex_official_bridge.Json.{
  Value, undefined, null, num, str, obj, end, get, is_object, is_string, is_undefined, is_text,
  keys_of, strict_eq, coalesce,
}
use codex_official_bridge.Codes.{Codes}
use codex_official_bridge.Image.{Outcome, done, failed, fail}

pub data Call : Type 0 where
  get_status : Call
  generate : (args : Value) → Call

-- An entry of `active`: whether its controller was aborted.
pub record Active : Type 0 where
  pub id : Value
  pub call : Call
  pub aborted : Bool

-- A line of output: an error by its id, the amount of its negative code, and its message; or a
-- result, where that of a tool call is the tool's.
pub data Reply : Type 0 where
  refusal : (id : Value) → (minus : ℕ) → (message : String) → Reply
  hello : (id version : Value) → Reply
  pong tool_list : (id : Value) → Reply
  result : (id : Value) → Outcome Value → Reply

-- `started` is the history of `active.set`.
pub record Server : Type 0 where
  pub initialized : Bool
  pub active : List Active
  pub pending : Codes
  pub destroyed : Bool
  pub sent : List Reply
  pub started : List Value

unfoldable pub new : Server
new = record {
  initialized = false;
  active = [];
  pending = [];
  destroyed = false;
  sent = [];
  started = [];
}

-- `send(value)` and `error(id, code, message)`.
abbrev pub send : Reply → Server → Server
send reply s = record s { sent = s.sent ++ reply ∷ [] }

abbrev pub refuse : (id : Value) → (minus : ℕ) → (message : String) → Server → Server
refuse id minus message s = send (refusal (coalesce id null) minus message) s

-- `active.has(id)`, `active.get(id)?.abort()`, `active.delete(id)`.
unfoldable pub has_active : Value → List Active → Bool
has_active id [] = false
has_active id (a ∷ rest) = strict_eq a.id id || has_active id rest

abbrev pub abort_entry : Active → Active
abort_entry a = record a { aborted = true }

unfoldable pub abort_at : Value → List Active → List Active
abort_at id [] = []
abort_at id (a ∷ rest) = if strict_eq a.id id then abort_entry a ∷ rest else a ∷ abort_at id rest

unfoldable pub abort_all : List Active → List Active
abort_all [] = []
abort_all (a ∷ rest) = abort_entry a ∷ abort_all rest

unfoldable pub drop_at : Value → List Active → List Active
drop_at id [] = []
drop_at id (a ∷ rest) = if strict_eq a.id id then rest else a ∷ drop_at id rest

abbrev is_empty : List String → Bool
is_empty [] = true
is_empty (k ∷ ks) = false

-- The tool of a call and its arguments.
abbrev pub call_of : (params : Value) → Outcome Call
call_of params =
    let args = coalesce (get params "arguments") (obj end) in
    if is_text "get_status" (get params "name")
    then (if not (is_object args) || not (is_empty (keys_of args))
        then fail "invalid_arguments" "get_status accepts no arguments."
        else done get_status)
    else if is_text "generate_image" (get params "name")
    then done (generate args)
    else fail "unknown_tool" "The requested tool is not available."

-- A call that fails before it waits is answered at once, and its entry deleted.
abbrev pub start_call : (id : Value) → Outcome Call → Server → Server
start_call id (failed e) s = record s {
  sent = s.sent ++ result id (failed e) ∷ [];
  started = s.started ++ id ∷ [];
}
start_call id (done call) s = record s {
  active = s.active ++ record { id = id; call = call; aborted = false } ∷ [];
  started = s.started ++ id ∷ [];
}

abbrev pub is_number : Value → Bool
is_number (num n) = true
is_number _ = false

abbrev versions : Value → Bool
versions v =
    is_text "2025-11-25" v
    || is_text "2025-06-18" v
    || is_text "2025-03-26" v
    || is_text "2024-11-05" v

abbrev pub version_of : Value → Value
version_of asked = if versions asked then asked else str "2025-06-18"

-- A message without an id.
unfoldable pub notice : Value → Server → Server
notice message s =
    if is_text "notifications/cancelled" (get message "method")
    then record s { active = abort_at (get (get message "params") "requestId") s.active }
    else s

-- A message with an id that is a text or a number.
unfoldable pub answer : (id message : Value) → Server → Server
answer id message s =
    let method = get message "method" in
    let params = get message "params" in
    if is_text "initialize" method
    then send (hello id (version_of (get params "protocolVersion")))
        (record s { initialized = true })
    else if is_text "ping" method
    then send (pong id) s
    else if not s.initialized
    then refuse id 32002 "Server not initialized" s
    else if is_text "tools/list" method
    then send (tool_list id) s
    else if not (is_text "tools/call" method)
    then refuse id 32601 "Method not found" s
    else if has_active id s.active
    then refuse id 32600 "Request id is already active" s
    else start_call id (call_of params) s

abbrev pub is_request : Value → Bool
is_request message =
    is_object message && is_text "2.0" (get message "jsonrpc") && is_string (get message "method")

-- `handle(message)`, up to the first wait.
unfoldable pub handle : Value → Server → Server
unfolding notice answer
handle message s =
    if not (is_request message)
    then refuse (get message "id") 32600 "Invalid request" s
    else if is_undefined (get message "id")
    then notice message s
    else if not (is_string (get message "id") || is_number (get message "id"))
    then refuse null 32600 "Invalid request id" s
    else answer (get message "id") message s

-- A tool call ends: its result is sent, and its entry deleted.
unfoldable pub settle : Value → Outcome Value → Server → Server
settle id outcome s =
    if has_active id s.active
    then record s { active = drop_at id s.active; sent = s.sent ++ result id outcome ∷ [] }
    else s

-- The end of the input, and the function that `serveStdio` returns.
unfoldable pub abort_calls : Server → Server
abort_calls s = record s { active = abort_all s.active }

pub data Step : Type 0 where
  receives : (chunk : Codes) → Step
  settles : (id : Value) → Outcome Value → Step
  ends : Step

module _ (parse : Codes → Option Value) where
  abbrev pub on_message : Option Value → Server → Server
  on_message none s = refuse null 32700 "Parse error" s
  on_message (some message) s = handle message s

  -- One line of the input.
  unfoldable pub on_line : Codes → Server → Server
  on_line [] s = s
  on_line (c ∷ cs) s =
      if ltb 262144 (length (c ∷ cs))
      then refuse null 32600 "Request exceeds input limit" s
      else on_message (parse (c ∷ cs)) s

  -- The `while` loop: `before` is the part of `pending` in which no line feed was found.
  unfoldable pub take_lines : (before rest : Codes) → Server → Server
  take_lines before [] s = record s { pending = before }
  take_lines before (c ∷ cs) s = elim (nat_eq c 10) [
    | true ↦ take_lines [] cs (on_line before s)
    | false ↦ take_lines (before ++ c ∷ []) cs s
  ]

  abbrev pub cut_off : Server → Server
  cut_off s =
      if ltb 262144 (length s.pending)
      then record (refuse null 32600 "Request exceeds input limit" s) {
        pending = [];
        destroyed = true;
      }
      else s

  -- `input.on('data')`; a destroyed input gives no data.
  unfoldable pub on_data : Codes → Server → Server
  unfolding take_lines
  on_data chunk s = if s.destroyed then s else cut_off (take_lines [] (s.pending ++ chunk) s)

  unfoldable pub step : Step → Server → Server
  unfolding on_data
  step (receives chunk) s = on_data chunk s
  step (settles id outcome) s = settle id outcome s
  step ends s = abort_calls s

  unfoldable pub run : Server → List Step → Server
  run s [] = s
  run s (t ∷ ts) = run (step t s) ts
