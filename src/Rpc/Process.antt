-- ===== src/Rpc/Process.antt =====
-- src/rpc.mjs: `start`, `#start`, what follows `#stopChild`'s waits, and `close`.
use codex_official_bridge.Prelude.{
  ℕ, String, true, false, Option, none, some, [], ◌∷◌, ◌⊕◌, if◌then◌else◌,
}
use codex_official_bridge.Json.{Value, undefined, str, bool, obj, Fields, field, end}
use codex_official_bridge.Rpc.{
  Rpc, RpcError, rpc_error, Event, Child, sigkill, Stop, terminating, killing, gone, Outcome,
  resolved, rejected, note, Promise, failed, Sent, sent, refused, send, request_now, fail,
  stop_child, terminal_or, closed_error,
}

abbrev text_field : String → String → Fields → Fields
text_field key text rest = field key (str text) rest

abbrev pub initialize_params : Value
initialize_params = obj (
    field "clientInfo"
      (obj (
        text_field "name" "codex_official_bridge"
          (text_field "title" "Codex Official Bridge" (text_field "version" "0.1.0" end))))
      (field "capabilities" (obj (field "experimentalApi" (bool true) end)) end))

abbrev pub new_child : Child
new_child = record { writable = true; exited = false; signals = [] }

-- What `spawn` comes to: it throws, or there is a child.
pub data Spawn : Type 0 where
  throws : RpcError → Spawn
  spawned : Spawn

module _ (listener : Event → Rpc → Rpc) where
  -- `#start` up to its first wait. The promise is that of the `initialize` request.
  unfoldable pub start : Spawn → ℕ → Rpc → Promise × Rpc
  unfolding fail stop_child request_now
  start (throws e) timeout_ms s = (failed e, stop_child (fail listener e s))
  start spawned timeout_ms s =
      if s.closed
      then (failed (terminal_or closed_error s.terminal_error), s)
      else request_now "initialize" initialize_params timeout_ms
          (record s { child = some new_child })

  abbrev pub ready : Sent → Rpc → Rpc
  ready (sent t) s = record t { started = true }
  ready (refused e) s = stop_child (fail listener e s)

  -- `#start` from the answer to `initialize` on.
  unfoldable pub initialized : Outcome → Rpc → Rpc
  unfolding send
  initialized (resolved v) s = ready (send (note "initialized" undefined) s) s
  initialized (rejected e) s = stop_child (fail listener e s)

  abbrev pub set_exited : Option Child → Rpc → Rpc
  set_exited none s = s
  set_exited (some c) s = record s { child = some (record c { exited = true; writable = false }) }

  -- The child's `close` event; `why` is the text about its code and signal.
  unfoldable pub child_closed : String → Rpc → Rpc
  unfolding fail
  child_closed why s =
      fail listener (rpc_error ("Codex app-server exited " ⊕ why) "RPC_PROCESS_EXIT")
        (set_exited s.child s)

  abbrev kill : Option Child → Rpc → Rpc
  kill none s = record s { stop = gone }
  kill (some c) s = if c.exited then record s { stop = gone } else record s {
    child = some (record c { signals = sigkill ∷ c.signals; writable = false });
    stop = killing;
  }

  abbrev waited_from : Stop → Rpc → Rpc
  waited_from terminating s = kill s.child s
  waited_from killing s = record s { stop = gone }
  waited_from stop s = s

  -- A wait of `#stopChild` ends, by the child's `close` or after 300 ms.
  unfoldable pub stop_waited : Rpc → Rpc
  stop_waited s = waited_from s.stop s

  -- `close()`, up to its wait for the child.
  unfoldable pub close : Rpc → Rpc
  unfolding fail stop_child
  close s = stop_child (fail listener (rpc_error "Codex RPC closed" "RPC_CLOSED") s)
