-- ===== src/Server.antt =====
-- src/server.mjs: what `createBridgeServer` decides about a request and about an upgrade. The hash,
-- the parser of URLs and the decoding of Base64 are the platform's.
pub mod Laws
pub mod Stream
use codex_official_bridge.Prelude.{
  ℕ, String, Bool, true, false, not, ◌&&◌, ◌||◌, Option, none, some, List, [], ◌∷◌, ◌==◌, ◌⊕◌,
  includes, if◌then◌else◌,
}
use codex_official_bridge.Text.{strip_prefix}

-- `url.pathname` and `url.search`.
pub record Url : Type 0 where
  pub pathname : String
  pub search : String

pub record Platform : Type 0 where
  -- The SHA-256 of a text, compared with `timingSafeEqual`.
  pub same_hash : String → String → Bool
  -- `new URL(target, 'http://localhost')`, which may throw.
  pub parse_url : String → Option Url
  -- A `sec-websocket-key` of 22 Base64 digits and `==`, that decodes to 16 bytes.
  pub is_websocket_key : String → Bool
  -- `upgrade?.toLowerCase() === 'websocket'`.
  pub is_websocket : String → Bool

pub record HttpRequest : Type 0 where
  pub method : String
  pub target : String
  pub origin : Option String
  pub authorization : Option String
  pub upgrade : Option String
  pub websocket_version : Option String
  pub websocket_key : Option String

pub data Route : Type 0 where
  -- An answer with an error, by its status and code.
  denied : ℕ → (code : String) → Route
  -- `json(res, backend.closed ? 503 : 200, backend.status())`.
  health : Route
  -- `rawUpstream.forward` and `rawUpstream.forwardWebSocket`.
  forwards tunnels : Route
  -- `bridge.respond`, behind the tests of the body.
  responds : Route

abbrev pub or_empty : Option String → String
or_empty none = ""
or_empty (some s) = s

abbrev pub is_present : Option String → Bool
is_present none = false
is_present (some s) = not (s == "")

abbrev starts_with : String → String → Bool
starts_with p s = elim (strip_prefix p s) [ none ↦ false | some rest ↦ true ]

-- `!req.url.startsWith('/') || req.url.startsWith('//')`.
abbrev pub is_origin_form : String → Bool
is_origin_form target = starts_with "/" target && not (starts_with "//" target)

abbrev post_paths : List String
post_paths = "/v1/responses" ∷ "/v1/responses/compact" ∷ "/v1/images/generations" ∷ []

-- `allowed`, with the test of the target behind it.
unfoldable pub is_allowed : HttpRequest → Url → Bool
is_allowed req url =
    ((req.method == "POST" && includes post_paths url.pathname && url.search == "")
      || (req.method == "GET" && url.pathname == "/v1/models"))
    && starts_with "/v1/" req.target
    && not (starts_with "//" req.target)

-- The routes of the gateway before a native runtime, and of the bridge.
abbrev pub native_route : HttpRequest → Url → Route
native_route req url = if is_allowed req url then forwards else denied 404 "not_found"

abbrev pub bridge_route : HttpRequest → Url → Route
bridge_route req url =
    if req.method == "POST" && url.pathname == "/v1/responses/compact"
    then denied 501 "unsupported_endpoint"
    else if not (req.method == "POST")
        || not (url.pathname == "/v1/responses")
        || not (url.search == "")
    then denied 404 "not_found"
    else responds

module _ (platform : Platform) (api_key : String) where
  -- Both handlers test these two first: `req.headers.origin`, and the Bearer key.
  abbrev pub is_authorized : HttpRequest → Bool
  is_authorized req = platform.same_hash ("Bearer " ⊕ api_key) (or_empty req.authorization)

  abbrev pub route_url : (is_native : Bool) → HttpRequest → Option Url → Route
  route_url is_native req none = denied 400 "invalid_request_target"
  route_url is_native req (some url) =
      if req.method == "GET" && url.pathname == "/healthz"
      then health
      else if is_native
      then native_route req url
      else bridge_route req url

  -- The request handler, up to the body.
  unfoldable pub route : (is_native : Bool) → HttpRequest → Route
  unfolding is_allowed
  route is_native req =
      if is_present req.origin
      then denied 403 "browser_origin_denied"
      else if not (is_authorized req)
      then denied 401 "invalid_api_key"
      else if not (is_origin_form req.target)
      then denied 400 "invalid_request_target"
      else route_url is_native req (platform.parse_url req.target)

  -- The handshake that the upgrade handler asks for.
  abbrev pub is_handshake : HttpRequest → Bool
  is_handshake req =
      platform.is_websocket (or_empty req.upgrade)
      && (or_empty req.websocket_version == "13")
      && platform.is_websocket_key (or_empty req.websocket_key)

  -- The upgrade handler.
  unfoldable pub upgrade_route : (is_native : Bool) → HttpRequest → Route
  upgrade_route is_native req =
      if is_present req.origin
      then denied 403 "browser_origin_denied"
      else if not (is_authorized req)
      then denied 401 "invalid_api_key"
      else if not is_native
      then denied 501 "websocket_unavailable"
      else if not (req.method == "GET") || not (req.target == "/v1/responses")
      then denied 404 "not_found"
      else if not (is_handshake req)
      then denied 400 "invalid_websocket_handshake"
      else tunnels
