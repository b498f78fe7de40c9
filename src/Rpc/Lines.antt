-- ===== src/Rpc/Lines.antt =====
-- src/rpc.mjs: `#onData`, `#append` and `#onLine`. A byte is a number; 10 ends a line.
pub mod Cases
use codex_official_bridge.Prelude.{
  ℕ, ◌+◌, String, Bool, true, false, not, ◌&&◌, ◌||◌, Option, none, some, List, [], ◌∷◌, ◌++◌, ◌==◌,
  length, ltb, nat_eq, if◌then◌else◌,
}
use codex_official_bridge.Json.{
  Value, num, str, obj, Fields, Number, nat, find_field, has_field, get, is_string, is_object,
  is_truthy,
}
use codex_official_bridge.Rpc.{
  Rpc, RpcError, rpc_error, Pending, Event, notification, server_request, Outcome, resolved,
  rejected, fail, remove, settle, is_valid_id,
}

-- What `JSON.parse(bytes.toString('utf8').trim())` comes to.
pub data Line : Type 0 where
  blank : Line
  broken : Line
  value : Value → Line

abbrev pub protocol_error : String → RpcError
protocol_error message = rpc_error message "RPC_PROTOCOL_ERROR"

abbrev pub too_long : RpcError
too_long = protocol_error "Codex RPC line exceeds maxLineBytes"

abbrev is_number : Value → Bool
is_number (num n) = true
is_number _ = false

-- `message.error && typeof message.error === 'object' && typeof message.error.message === 'string'
-- && typeof message.error.code === 'number'`; a list has no `message`.
is_error_object : Value → Bool
unfolding get
is_error_object e = is_object e && is_string (get e "message") && is_number (get e "code")

abbrev text_or_empty : Value → String
text_or_empty (str s) = s
text_or_empty _ = ""

-- The error that a response carries, once `is_error_object` holds.
remote_error : Value → RpcError
unfolding get
remote_error e = record { message = text_or_empty (get e "message"); code = get e "code" }

unfoldable pub is_pending : List Pending → ℕ → Bool
is_pending [] id = false
is_pending (p ∷ ps) id = nat_eq p.id id || is_pending ps id

-- `#pending.get(message.id)`: the keys are the numbers that `#nextId` gave.
abbrev pub pending_id : List Pending → Value → Option ℕ
pending_id ps (num (nat n)) = if is_pending ps n then some n else none
pending_id ps _ = none

abbrev pub settle_found : Option ℕ → Outcome → Rpc → Rpc
settle_found none outcome s = s
settle_found (some id) outcome s = settle id outcome s

abbrev outcome_of : Fields → Outcome
outcome_of fs =
    if has_field fs "error"
    then rejected (remote_error (find_field fs "error"))
    else resolved (find_field fs "result")

-- `!validId(message.id) || has(message, 'result') === has(message, 'error')`.
is_bad_response : Fields → Bool
unfolding find_field has_field
is_bad_response fs =
    not (is_valid_id (find_field fs "id"))
    || (if has_field fs "result" then has_field fs "error" else not (has_field fs "error"))

is_bad_error : Fields → Bool
unfolding find_field has_field is_error_object
is_bad_error fs = has_field fs "error" && not (is_error_object (find_field fs "error"))

module _ (listener : Event → Rpc → Rpc) where
  -- A message that has a `method`.
  on_call : Fields → Value → Rpc → Rpc
  unfolding fail find_field has_field
  on_call fs (str method) s =
      if method == "" || (has_field fs "id" && not (is_valid_id (find_field fs "id")))
      then fail listener (protocol_error "Codex emitted an invalid RPC method or id") s
      else if has_field fs "id"
      then listener (server_request (find_field fs "id") method (find_field fs "params")) s
      else listener (notification method (find_field fs "params")) s
  on_call fs _ s = fail listener (protocol_error "Codex emitted an invalid RPC method or id") s

  -- A message that has none: a response.
  on_response : Fields → Rpc → Rpc
  unfolding fail is_bad_response is_bad_error remote_error is_pending remove
  on_response fs s =
      if is_bad_response fs
      then fail listener (protocol_error "Codex emitted an invalid RPC response") s
      else if is_bad_error fs
      then fail listener (protocol_error "Codex emitted an invalid RPC error") s
      else settle_found (pending_id s.pending (find_field fs "id")) (outcome_of fs) s

  unfoldable pub on_message : Value → Rpc → Rpc
  unfolding on_call on_response
  on_message (obj fs) s =
      if has_field fs "method" then on_call fs (find_field fs "method") s else on_response fs s
  on_message _ s = fail listener (protocol_error "Codex emitted an invalid RPC message") s

  abbrev pub on_decoded : Line → Rpc → Rpc
  on_decoded blank s = s
  on_decoded broken s = fail listener (protocol_error "Codex emitted invalid JSON") s
  on_decoded (value v) s = on_message v s

  module _ (decode : List ℕ → Line) where
    -- `#onLine(bytes)`.
    unfoldable pub on_line : List ℕ → Rpc → Rpc
    unfolding on_message
    on_line bytes s = on_decoded (decode bytes) s

    -- The line that ended: the buffer is emptied before it is read.
    unfoldable pub take_line : Rpc → Rpc
    unfolding on_line
    take_line s = on_line s.buffer (record s { buffer = [] })

    module _ (max_line_bytes : ℕ) where
      -- `#append(chunk)`, with whether it went well.
      unfoldable pub append : List ℕ → Rpc → Bool × Rpc
      unfolding fail
      append chunk s =
          if ltb max_line_bytes (length s.buffer + length chunk)
          then (false, fail listener too_long s)
          else (true, record s { buffer = s.buffer ++ chunk })

      -- Behind the end of a line: stop if the line was too long, or if reading it closed the client.
      unfoldable pub unless_closed : (Rpc → Rpc) → Rpc → Rpc
      unless_closed rest s = elim s.closed [ true ↦ s | false ↦ rest s ]

      abbrev pub go_on : (Rpc → Rpc) → Bool × Rpc → Rpc
      go_on rest (false, s) = s
      go_on rest (true, s) = unless_closed rest (take_line s)

      -- The loop of `#onData`: `slice` holds the bytes from `start` to `index`.
      unfoldable pub scan : List ℕ → List ℕ → Rpc → Rpc
      scan slice [] s = (append slice s).1
      scan slice (b ∷ bs) s = elim (nat_eq b 10) [
        | false ↦ scan (slice ++ b ∷ []) bs s
        | true ↦ go_on (scan [] bs) (append slice s)
      ]

      unfoldable pub on_data : List ℕ → Rpc → Rpc
      on_data chunk s = unless_closed (scan [] chunk) s
