-- ===== src/Rpc.antt =====
-- src/rpc.mjs: `CodexRpc`, the client of the app-server child. This file has its state, failing,
-- sending and the public calls; `Rpc.Lines` reads the child's output, and `Rpc.Process` starts and
-- stops the child.
pub mod Lines
pub mod Process
pub mod Framing
pub mod Steps
pub mod Settlement
pub mod ExactlyOnce
use codex_official_bridge.Prelude.{
  ℕ, suc, zero, String, Bool, true, false, not, ◌&&◌, ◌||◌, Option, none, some, List, [], ◌∷◌, ◌++◌,
  ◌⊕◌, nat_eq, map, if◌then◌else◌,
}
use codex_official_bridge.Json.{Value, undefined, num, str, nat, Number, infinite, is_string}

-- `rpcError(message, code)`, and the `TypeError` of an argument.
pub record RpcError : Type 0 where
  pub message : String
  pub code : Value

abbrev pub rpc_error : String → String → RpcError
rpc_error message code = record { message = message; code = str code }

-- What is written to the child, one JSON text to a line.
pub data Message : Type 0 where
  call : (id : ℕ) → (method : String) → (params : Value) → Message
  note : (method : String) → (params : Value) → Message
  answer : (id result : Value) → Message
  refusal : (id : Value) → (code : Value) → (message : String) → Message

-- How the promise of a request ends.
pub data Outcome : Type 0 where
  resolved : Value → Outcome
  rejected : RpcError → Outcome

pub data Signal : Type 0 where
  sigterm sigkill : Signal

-- How far `#stopChild` is. `gone` also stands for a child that had closed or was never there.
pub data Stop : Type 0 where
  running terminating killing gone : Stop

pub record Child : Type 0 where
  -- `stdin.writable`
  pub writable : Bool
  pub exited : Bool
  pub signals : List Signal

-- An entry of `#pending`: its timer is set as long as it is there.
pub record Pending : Type 0 where
  pub id : ℕ
  pub method : String

pub record Rpc : Type 0 where
  pub started : Bool
  pub closed : Bool
  pub terminal_error : Option RpcError
  pub pending : List Pending
  pub next_id : ℕ
  pub buffer : List ℕ
  pub child : Option Child
  pub stop : Stop
  -- What was written, and the promises that ended, the newest first.
  pub written : List Message
  pub settled : List (ℕ × Outcome)

-- The events that `CodexRpc` emits.
pub data Event : Type 0 where
  notification : (method : String) → (params : Value) → Event
  server_request : (id : Value) → (method : String) → (params : Value) → Event
  exit : RpcError → Event

unfoldable pub new : Rpc
new = record {
  started = false;
  closed = false;
  terminal_error = none;
  pending = [];
  next_id = 1;
  buffer = [];
  child = none;
  stop = running;
  written = [];
  settled = [];
}

abbrev pub is_valid_id : Value → Bool
is_valid_id (str s) = true
is_valid_id (num (infinite b)) = false
is_valid_id (num n) = true
is_valid_id _ = false

-- `terminalError ?? rpcError(...)`.
abbrev pub terminal_or : RpcError → Option RpcError → RpcError
terminal_or e none = e
terminal_or e (some t) = t

abbrev pub closed_error : RpcError
closed_error = rpc_error "Codex RPC is closed" "RPC_CLOSED"

abbrev pub not_started : RpcError
not_started = rpc_error "Codex RPC has not started" "RPC_NOT_STARTED"

-- The loop over `#pending` in `#fail`.
unfoldable pub reject_all : RpcError → List Pending → List (ℕ × Outcome) → List (ℕ × Outcome)
reject_all e [] log = log
reject_all e (p ∷ ps) log = reject_all e ps ((p.id, rejected e) ∷ log)

-- `child.stdin.end(); child.kill('SIGTERM')`.
abbrev pub terminate : Child → Child
terminate c = record c { writable = false; signals = sigterm ∷ c.signals }

abbrev stop_with : Option Child → Stop → Rpc → Rpc
stop_with (some c) running s =
    if c.exited
    then record s { stop = gone }
    else record s { child = some (terminate c); stop = terminating }
stop_with none running s = record s { stop = gone }
stop_with child stop s = s

-- `#stopChild`, up to its first wait; `#stopPromise` makes it run once.
unfoldable pub stop_child : Rpc → Rpc
stop_child s = stop_with s.child s.stop s

-- The assignments of `#fail`, before it emits `exit`.
abbrev pub shut : RpcError → Rpc → Rpc
shut e s = record s {
  closed = true;
  started = false;
  terminal_error = some e;
  buffer = [];
  settled = reject_all e s.pending s.settled;
  pending = [];
}

-- Listeners run inside `emit`, and may call back.
module _ (listener : Event → Rpc → Rpc) where
  unfoldable pub fail : RpcError → Rpc → Rpc
  unfolding reject_all stop_child
  fail e s = if s.closed then s else stop_child (listener (exit e) (shut e s))

abbrev pub is_writable : Option Child → Bool
is_writable none = false
is_writable (some c) = c.writable

-- `#send`: what it throws, or the state after the write.
pub data Sent : Type 0 where
  sent : Rpc → Sent
  refused : RpcError → Sent

unfoldable pub send : Message → Rpc → Sent
send m s =
    if s.closed || not (is_writable s.child)
    then refused (terminal_or closed_error s.terminal_error)
    else sent (record s { written = m ∷ s.written })

unfoldable pub remove : ℕ → List Pending → List Pending
remove id [] = []
remove id (p ∷ ps) = let rest = remove id ps in if nat_eq p.id id then rest else p ∷ rest

abbrev pub settle : ℕ → Outcome → Rpc → Rpc
settle id outcome s = record s {
  pending = remove id s.pending;
  settled = (id, outcome) ∷ s.settled;
}

abbrev pub after_send : ℕ → Rpc → Sent → Rpc
after_send id s (sent t) = t
after_send id s (refused e) = settle id (rejected e) s

-- A promise that was made: its id, or the error that it was rejected with at once.
pub data Promise : Type 0 where
  made : ℕ → Promise
  failed : RpcError → Promise

abbrev pub with_entry : String → Rpc → Rpc
with_entry method s = record s {
  next_id = suc s.next_id;
  pending = s.pending ++ record { id = s.next_id; method = method } ∷ [];
}

-- `#request(method, params, timeoutMs)`, with the timeout in milliseconds.
unfoldable pub request_now : String → Value → ℕ → Rpc → Promise × Rpc
unfolding send remove
request_now method params timeout_ms s =
    if nat_eq timeout_ms 0
    then (failed (record { message = "timeoutMs must be positive"; code = undefined }), s)
    else (
      made s.next_id,
      after_send s.next_id (with_entry method s)
          (send (call s.next_id method params) (with_entry method s)),
    )

-- `request(method, params)`.
unfoldable pub request : String → Value → ℕ → Rpc → Promise × Rpc
unfolding request_now
request method params timeout_ms s =
    if not s.started || s.closed
    then (failed (terminal_or not_started s.terminal_error), s)
    else request_now method params timeout_ms s

-- `#requireStarted`, in front of a send.
unfoldable pub send_started : Message → Rpc → Sent
unfolding send
send_started m s =
    if not s.started || s.closed
    then refused (terminal_or not_started s.terminal_error)
    else send m s

abbrev bad_id : RpcError
bad_id = record { message = "RPC response id must be a string or number"; code = undefined }

-- `notify`, `respond` and `respondError`.
unfoldable pub notify : String → Value → Rpc → Sent
unfolding send_started
notify method params s = send_started (note method params) s

unfoldable pub respond : Value → Value → Rpc → Sent
unfolding send
respond id result s =
    if not s.started || s.closed
    then refused (terminal_or not_started s.terminal_error)
    else if is_valid_id id
    then send (answer id result) s
    else refused bad_id

unfoldable pub respond_error : Value → Value → String → Rpc → Sent
unfolding send
respond_error id code message s =
    if not s.started || s.closed
    then refused (terminal_or not_started s.terminal_error)
    else if is_valid_id id
    then send (refusal id code message) s
    else refused bad_id

-- The timer of an entry fires: a timer that was cleared does not.
abbrev pub timeout_error : String → RpcError
timeout_error method = rpc_error ("Codex RPC request timed out: " ⊕ method) "RPC_TIMEOUT"

unfoldable pub time_out : List Pending → ℕ → Rpc → Rpc
unfolding remove
time_out [] id s = s
time_out (p ∷ ps) id s =
    let rest = time_out ps id s in
    if nat_eq p.id id then settle id (rejected (timeout_error p.method)) s else rest

-- A write that fails later, and the errors of the pipes.
module _ (listener : Event → Rpc → Rpc) where
  unfoldable pub write_failed : Rpc → Rpc
  unfolding fail
  write_failed s = fail listener (rpc_error "Cannot write to Codex stdin" "RPC_IO_ERROR") s
