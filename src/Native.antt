-- ===== src/Native.antt =====
-- src/native-runtime.mjs: `transportHeaders`, and what `forwardRawRequest` does before it opens its
-- connection. A header has one text for a value; names are compared by their ASCII lower case, as
-- Node admits no others.
pub mod Laws
pub mod Lifecycle
use codex_official_bridge.Prelude.{
  ℕ, suc, zero, ◌+◌, code, String, Bool, true, false, not, ◌&&◌, ◌||◌, Option, none, some, List, [],
  ◌∷◌, ◌++◌, ◌==◌, map, length, leb, ltb, nat_eq, if◌then◌else◌,
}
use codex_official_bridge.Text.{is_space, decimal}
use codex_official_bridge.Protocol.Error.{
  Thrown, bridge, bridge_error, BridgeError, Result, ok, throw,
}
use codex_official_bridge.Codes.{codes, same_codes, trim, split}
use codex_official_bridge.Body.{read_all}
use codex_official_bridge.Assoc.{find, put, drop_keys}

abbrev pub Headers : Type 0
Headers = List (String × String)

abbrev pub lower : ℕ → ℕ
lower c = if leb 65 c && leb c 90 then c + 32 else c

-- `a.toLowerCase() === b.toLowerCase()`, by the codes.
abbrev same_name : List ℕ → List ℕ → Bool
same_name a b = same_codes (map lower a) (map lower b)

abbrev hop_headers : List String
hop_headers =
    "connection" ∷ "keep-alive" ∷ "proxy-authenticate" ∷ "proxy-authorization" ∷ "te" ∷ "trailer"
    ∷ "transfer-encoding" ∷ "upgrade" ∷ []

abbrev private_headers : List String
private_headers =
    "authorization" ∷ "cookie" ∷ "set-cookie" ∷ "x-api-key" ∷ "api-key" ∷ "chatgpt-account-id"
    ∷ "chatgpt-user-id" ∷ "openai-organization" ∷ "openai-project" ∷ "x-openai-actor-authorization"
    ∷ "x-openai-fedramp" ∷ "x-codex-runtime-token" ∷ []

abbrev pub has_name : List (List ℕ) → String → Bool
has_name [] name = false
has_name (n ∷ ns) name = same_name n (codes name) || has_name ns name

abbrev or_empty : Option String → String
or_empty none = ""
or_empty (some s) = s

-- The names that `headers.connection` lists.
unfoldable pub connection_names : Headers → List (List ℕ)
connection_names headers = map trim (split b',' (codes (or_empty (find headers "connection"))))

-- `excluded.has(name.toLowerCase())`.
unfoldable pub is_excluded : Headers → String → Bool
is_excluded headers name =
    has_name (map codes (hop_headers ++ private_headers ++ "host" ∷ [])) name
    || has_name (connection_names headers) name

-- `transportHeaders(headers)`.
unfoldable pub transport_headers : Headers → Headers
transport_headers headers = drop_keys (is_excluded headers) headers

abbrev pub too_large : BridgeError
too_large = bridge_error 413 "body_too_large" "Request body exceeds the configured limit." none

-- The loop over the chunks of the body.
unfoldable pub read_body : (limit : ℕ) → List (List ℕ) → Result (List ℕ)
read_body limit chunks = read_all (throw (bridge too_large)) ok limit chunks

abbrev with_body : String → Headers → Result (List ℕ) → Result (Headers × List ℕ)
with_body token headers (throw e) = throw e
with_body token headers (ok body) = ok (
  put (put (transport_headers headers) "x-codex-runtime-token" token) "content-length"
      (decimal (length body)),
  body,
)

abbrev over_limit : ℕ → Option ℕ → Bool
over_limit limit none = false
over_limit limit (some n) = ltb limit n

-- `forwardRawRequest`, up to its connection: the headers and the body that it sends. Whether the
-- content type is JSON, and `Number` of the content length where it is natural, are given.
unfoldable pub prepare_request :
    (is_post is_json : Bool) (declared : Option ℕ) (limit : ℕ) (token : String) (headers : Headers)
    → List (List ℕ)
    → Result (Headers × List ℕ)
prepare_request is_post is_json declared limit token headers chunks =
    if is_post && not is_json
    then throw (
        bridge
          (bridge_error 415 "unsupported_media_type" "Use Content-Type: application/json." none))
    else if over_limit limit declared
    then throw (bridge too_large)
    else with_body token headers (read_body limit chunks)
