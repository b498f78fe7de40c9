-- ===== src/Examples/Gateways.antt =====
-- Runs of the models of src/runtime.mjs, src/native-runtime.mjs, src/server.mjs and
-- src/native-websocket.mjs on concrete inputs.
use codex_official_bridge.Prelude.{
  ℕ, String, ◌≡◌, ◌≢◌, refl, true, false, Option, none, some, List, [], ◌∷◌, ◌==◌, length, leb,
  if◌then◌else◌,
}
use codex_official_bridge.Codes.{Codes, codes}
use codex_official_bridge.Text.{strip_prefix}
use codex_official_bridge.Protocol.Error.{ok, throw, bridge, ◌>>=◌}
use codex_official_bridge.Assoc.{find}
use codex_official_bridge.Runtime.{Env, codex_environment, Options, integer, runtime_options}
use codex_official_bridge.Runtime.Laws.{
  find-codex_environment, IsSecret, IsBounded, runtime_options-IsBounded,
}
use codex_official_bridge.Native.{Headers, transport_headers, read_body, too_large}
use codex_official_bridge.Native.Laws.{IsDropped, find-transport_headers, read_body-joined}
use codex_official_bridge.Body.Laws.{joined}
use codex_official_bridge.Server.{Platform, HttpRequest, route, is_allowed}
use codex_official_bridge.Server.Laws.{IsTrusted, route-IsTrusted}
use codex_official_bridge.Tunnel.{Event, upgrades, peer_closes, closes, tunnel}
use codex_official_bridge.Tunnel.Release.{IsReleased, tunnel-IsReleased}

abbrev environment : Env
environment = ("PATH", "/bin") ∷ ("BRIDGE_API_KEY", "k") ∷ ("CODEX_HOME", "/old") ∷ []

find-codex_environment_example :
    (find (codex_environment "/home" environment) "CODEX_HOME" ≡ some "/home")
    × ((key : String) → IsSecret key → find (codex_environment "/home" environment) key ≡ none)
    × ((key : String)
        → key ≢ "CODEX_HOME"
        → ¬ IsSecret key
        → find (codex_environment "/home" environment) key ≡ find environment key)
find-codex_environment_example = find-codex_environment "/home" environment

abbrev no_number : String → Option ℕ
no_number text = none

abbrev options : Options no_number
options = record {
  mode = "native";
  native_command = none;
  startup_timeout_ms = 120000;
  api_key = some "k";
  port = 8789;
  command = "codex";
  default_model = none;
  request_timeout_ms = 120000;
  session_ttl_ms = 300000;
}

runtime_options-IsBounded_example : IsBounded no_number options
unfolding runtime_options integer find ◌>>=◌
runtime_options-IsBounded_example = runtime_options-IsBounded no_number environment options refl

abbrev headers : Headers
headers = ("connection", "X-Trace, close") ∷ ("x-trace", "1") ∷ ("accept", "*/*") ∷ []

-- The parts of the `connection` header.
abbrev parts : List Codes
parts = codes "X-Trace" ∷ codes " close" ∷ []

find-transport_headers_example :
    (IsDropped parts "x-trace" → find (transport_headers headers) "x-trace" ≡ none)
    × (¬ IsDropped parts "x-trace"
        → find (transport_headers headers) "x-trace" ≡ find headers "x-trace")
unfolding find
find-transport_headers_example =
    find-transport_headers headers (codes "X-Trace") (codes " close" ∷ []) refl
      (refl, (refl, (refl, (refl, (refl, (refl, (refl, tt)))))))
      ((refl, (refl, (refl, (refl, (refl, (refl, tt)))))), tt) "x-trace"

abbrev chunks : List (List ℕ)
chunks = (1 ∷ 2 ∷ []) ∷ (3 ∷ []) ∷ []

read_body-joined_example :
    read_body 3 chunks
    ≡ (if leb (length (joined chunks)) 3 then ok (joined chunks) else throw (bridge too_large))
read_body-joined_example = read_body-joined 3 chunks

-- A platform that compares texts themselves, and knows no search.
abbrev platform : Platform
platform = record {
  same_hash = λ a b. a == b;
  parse_url = λ target. some (record { pathname = target; search = "" });
  is_websocket_key = λ key. true;
  is_websocket = λ upgrade. upgrade == "websocket";
}

abbrev post : HttpRequest
post = record {
  method = "POST";
  target = "/v1/responses";
  origin = none;
  authorization = some "Bearer k";
  upgrade = none;
  websocket_version = none;
  websocket_key = none;
}

route-IsTrusted_example : IsTrusted platform "k" post
unfolding route is_allowed strip_prefix
route-IsTrusted_example = route-IsTrusted platform "k" true post (λ status code e. cc)

abbrev handshake : HttpRequest
handshake = record post {
  method = "GET";
  upgrade = some "websocket";
  websocket_version = some "13";
  websocket_key = some "AAAAAAAAAAAAAAAAAAAAAA==";
}

abbrev events : List Event
events = upgrades 101 true false ∷ peer_closes true ∷ closes ∷ []

tunnel-IsReleased_example : IsReleased (tunnel false events)
tunnel-IsReleased_example = tunnel-IsReleased false events
