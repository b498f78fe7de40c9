-- ===== src/Server/Stream.antt =====
-- src/server.mjs: the body of a request to the bridge, and the stream of its events. `JSON.parse`
-- and `JSON.stringify` are the platform's here, on the codes of their texts.
pub mod Envelope
use codex_official_bridge.Prelude.{
  ℕ, ◌+◌, String, Bool, true, false, not, ◌&&◌, ◌||◌, Option, none, some, List, [], ◌∷◌, ◌++◌, ◌==◌,
  ◌⊕◌, length, ltb, if◌then◌else◌,
}
use codex_official_bridge.Json.{Value, bool, get}
use codex_official_bridge.Text.{decimal}
use codex_official_bridge.Codes.{Codes, codes}
use codex_official_bridge.Body.{read_all}
use codex_official_bridge.Protocol.Error.{
  Thrown, bridge, other, bridge_error, BridgeError, ErrorBody, error_body, Result, ok, throw, ◌>>=◌,
  ◌>>◌, throw_if,
}

-- What is written to a stream: an event by its type and its JSON text, or the heartbeat.
pub data Piece : Type 0 where
  event : (type content : Codes) → Piece
  keepalive : Piece

-- `event: ${event.type}\ndata: ${JSON.stringify(event)}\n\n` and `: keepalive\n\n`.
abbrev pub wire : Piece → Codes
wire (event type content) =
    codes "event: " ++ type ++ 10 ∷ codes "data: " ++ content ++ 10 ∷ 10 ∷ []
wire keepalive = codes ": keepalive" ++ 10 ∷ 10 ∷ []

abbrev pub wires : List Piece → Codes
wires [] = []
wires (p ∷ ps) = wire p ++ wires ps

-- The response: `streaming` is set with the head of a stream; `answered` is a JSON answer by its
-- status.
pub record Outgoing : Type 0 where
  pub destroyed : Bool
  pub streaming : Bool
  pub ended : Bool
  pub pieces : List Piece
  pub answered : Option ℕ

unfoldable pub fresh : Outgoing
fresh = record { destroyed = false; streaming = false; ended = false; pieces = []; answered = none }

abbrev disconnected : Thrown
disconnected = bridge (bridge_error 499 "client_disconnected" "The client disconnected." none)

abbrev slow_consumer : Thrown
slow_consumer =
    bridge (bridge_error 502 "slow_consumer" "Client is not consuming the event stream." none)

-- `onEvent` of a streamed request, where `queued` is `res.writableLength`.
unfoldable pub on_event :
    (queued : ℕ) → (type content : Codes) → Outgoing → Result (Unit {0}) × Outgoing
on_event queued type content out =
    if out.destroyed
    then (throw disconnected, out)
    else if ltb 2097152 queued
    then (throw slow_consumer, record out { streaming = true })
    else (ok tt, record out { streaming = true; pieces = out.pieces ++ event type content ∷ [] })

-- The heartbeat, which is set with the head of the stream.
unfoldable pub beat : Outgoing → Outgoing
beat out =
    if out.streaming && not out.destroyed
    then record out { pieces = out.pieces ++ keepalive ∷ [] }
    else out

-- `json(res, status, value)`.
abbrev pub answer : ℕ → Outgoing → Outgoing
answer status out =
    if out.destroyed || out.ended then out else record out { answered = some status; ended = true }

abbrev pub status_of : Thrown → ℕ
status_of (bridge e) = e.status
status_of other = 500

-- What follows `bridge.respond`, by its result.
unfoldable pub conclude : {A : Type 0} → Result A → Outgoing → Outgoing
conclude (ok a) out = if out.streaming then record out { ended = true } else answer 200 out
conclude (throw e) out =
    if out.destroyed
    then out
    else if out.streaming
    then record out { ended = true }
    else answer (status_of e) out

abbrev body_too_large : ℕ → BridgeError
body_too_large limit =
    bridge_error 413 "body_too_large" ("Request body exceeds " ⊕ decimal limit ⊕ " bytes.") none

abbrev is_identity : Option String → Bool
is_identity none = true
is_identity (some encoding) = (encoding == "") || (encoding == "identity")

abbrev parsed : Option Value → Result Value
parsed none =
    throw (bridge (bridge_error 400 "invalid_json" "Request body is not valid JSON." none))
parsed (some v) = ok v

-- The tests and the reading of the body, in front of `bridge.respond`. Whether the content type
-- fits `/^application\/json(?:\s*;|$)/i` is given.
unfoldable pub read_body :
    (parse : Codes → Option Value) (limit : ℕ) (encoding : Option String) (is_json : Bool)
    → List Codes
    → Result Value
read_body parse limit encoding is_json chunks = do
  throw_if (not (is_identity encoding)) (
      bridge_error 415 "unsupported_encoding"
        "Compressed client request bodies are not supported yet." none)
  throw_if (not is_json)
      (bridge_error 415 "unsupported_media_type" "Use Content-Type: application/json." none)
  bytes ← read_all (throw (bridge (body_too_large limit))) ok limit chunks
  parsed (parse bytes)

-- `body?.stream === true`.
abbrev pub wants_stream : Value → Bool
wants_stream body = elim (get body "stream") [ bool b ↦ b | _ ↦ false ]

-- What can happen to the response while `bridge.respond` runs.
pub data Happening : Type 0 where
  sends : (queued : ℕ) → (type content : Codes) → Happening
  beats breaks : Happening

unfoldable pub happen : Happening → Outgoing → Outgoing
unfolding on_event beat
happen (sends queued type content) out = (on_event queued type content out).1
happen beats out = beat out
happen breaks out = record out { destroyed = true }

unfoldable pub run : Outgoing → List Happening → Outgoing
run out [] = out
run out (h ∷ hs) = run (happen h out) hs
