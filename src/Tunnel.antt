-- ===== src/Tunnel.antt =====
-- src/native-websocket.mjs: `tunnelWebSocket`, the events of one tunnel. The piped bytes are not
-- followed; the headers that are filtered are those of `Native`.
pub mod Release
use codex_official_bridge.Prelude.{
  ℕ, suc, String, Bool, true, false, not, ◌&&◌, ◌||◌, Option, none, some, List, [], ◌∷◌, nat_eq,
  if◌then◌else◌,
}
use codex_official_bridge.Protocol.Error.{BridgeError, bridge_error}

pub record Tunnel : Type 0 where
  pub upstream_destroyed : Bool
  -- `upstreamSocket` is there and not destroyed.
  pub peer_open : Bool
  pub socket_destroyed : Bool
  -- `socket.end()` was called.
  pub socket_ended : Bool
  pub paused : Bool
  pub response_started : Bool
  pub upgraded : Bool
  -- The timer of the handshake is set, and the listener of the signal is registered.
  pub deadline : Bool
  pub listening : Bool
  pub settled : Bool
  -- How the promise ended, each time that `settle` decided it.
  pub ends : List (Option BridgeError)
  -- The status lines that were written.
  pub heads : List ℕ

unfoldable pub new : Tunnel
new = record {
  upstream_destroyed = false;
  peer_open = false;
  socket_destroyed = false;
  socket_ended = false;
  paused = true;
  response_started = false;
  upgraded = false;
  deadline = true;
  listening = false;
  settled = false;
  ends = [];
  heads = [];
}

-- `settle(error)`, with `cleanup`.
abbrev pub settle : Option BridgeError → Tunnel → Tunnel
settle error t =
    if t.settled
    then t
    else record t { settled = true; deadline = false; listening = false; ends = error ∷ t.ends }

abbrev destroy_upstream : Tunnel → Tunnel
destroy_upstream t = record t { upstream_destroyed = true; peer_open = false }

abbrev destroy_socket : Tunnel → Tunnel
destroy_socket t = record t { socket_destroyed = true }

-- `fail(code)`.
unfoldable pub fail : String → Tunnel → Tunnel
fail code t =
    if t.response_started
    then settle none (destroy_socket (destroy_upstream t))
    else settle
        (some (bridge_error 502 code "The official runtime WebSocket connection failed." none))
        (destroy_upstream t)

-- `onAbort()`, which is also called for an error of the socket.
unfoldable pub on_abort : Tunnel → Tunnel
on_abort t = settle none (destroy_socket (destroy_upstream t))

-- The socket closes.
unfoldable pub on_close : Tunnel → Tunnel
on_close t = settle none (destroy_upstream (destroy_socket t))

abbrev write_head : ℕ → Tunnel → Tunnel
write_head status t = record t { response_started = true; heads = status ∷ t.heads }

-- The runtime accepts the upgrade. A peer that is destroyed at once never opens.
unfoldable pub on_upgrade : (status : ℕ) (is_websocket aborted : Bool) → Tunnel → Tunnel
unfolding fail
on_upgrade status is_websocket aborted t =
    if t.settled || t.socket_destroyed || aborted
    then t
    else if not (nat_eq status 101) || not is_websocket
    then fail "native_websocket_failed" t
    else write_head 101
        (record t { upgraded = true; deadline = false; peer_open = true; paused = false })

-- The runtime answers with another response.
unfoldable pub on_response : (status : ℕ) → Tunnel → Tunnel
on_response status t =
    if t.settled || t.upgraded || t.socket_destroyed
    then t
    else write_head status (record t { paused = false })

unfoldable pub on_upstream_error : Tunnel → Tunnel
unfolding fail
on_upstream_error t = if t.settled then t else fail "native_websocket_failed" t

-- The peer closes, with all its output read or not.
unfoldable pub on_peer_close : (readable_ended : Bool) → Tunnel → Tunnel
on_peer_close readable_ended t =
    if not readable_ended
    then record t { socket_destroyed = true; peer_open = false }
    else if not t.socket_ended
    then record t { socket_ended = true; peer_open = false }
    else record t { peer_open = false }

-- The end of the body: an abort that came before, or the listener and the request.
unfoldable pub begin : (aborted : Bool) → Tunnel → Tunnel
unfolding on_abort
begin aborted t = if aborted then on_abort t else record t { listening = true }

pub data Event : Type 0 where
  upgrades : (status : ℕ) (is_websocket aborted : Bool) → Event
  responds : (status : ℕ) → Event
  -- An error of the request, of the peer or of the response; and of the socket.
  upstream_fails peer_fails response_fails socket_fails : Event
  peer_closes : (readable_ended : Bool) → Event
  closes aborts expires : Event

-- Timers that were cleared do not fire, and listeners that were removed are not called.
unfoldable pub step : Event → Tunnel → Tunnel
step (upgrades status is_websocket aborted) t = on_upgrade status is_websocket aborted t
step (responds status) t = on_response status t
step upstream_fails t = on_upstream_error t
step peer_fails t = fail "native_websocket_failed" t
step response_fails t = fail "native_websocket_failed" t
step socket_fails t = on_abort t
step (peer_closes readable_ended) t = on_peer_close readable_ended t
step closes t = on_close t
step aborts t = if t.listening then on_abort t else t
step expires t = if t.deadline then fail "native_websocket_handshake_timeout" t else t

unfoldable pub run : Tunnel → List Event → Tunnel
run t [] = t
run t (e ∷ es) = run (step e t) es

-- `tunnelWebSocket` with the events that follow it.
unfoldable pub tunnel : (aborted : Bool) → List Event → Tunnel
unfolding new begin run
tunnel aborted events = run (begin aborted new) events
