-- ===== src/Server/Laws.antt =====
-- src/server.mjs: who reaches what is behind the gateway.
use codex_official_bridge.Prelude.{
  ℕ, String, ◌≡◌, ◌≢◌, refl, Bool, true, false, not, ◌⊕◌, if◌then◌else◌, if_cases,
}
use codex_official_bridge.Server.{
  Platform, HttpRequest, Route, denied, health, forwards, tunnels, responds, is_present, or_empty,
  is_authorized, route,
}

-- What holds of a route that is no error.
abbrev Unless : Type 0 → Route → Type 0
Unless P (denied status code) = Unit
Unless P _ = P

Unless-any : (P : Type 0) (r : Route) → P → Unless P r
Unless-any P (denied status code) h = tt
Unless-any P health h = h
Unless-any P forwards h = h
Unless-any P tunnels h = h
Unless-any P responds h = h

passed :
    (P : Type 0) (r : Route)
    → ((status : ℕ) (code : String) → r ≢ denied status code)
    → Unless P r
    → P
passed P (denied status code) no_error h = elim (no_error status code refl) [ ]
passed P health no_error h = h
passed P forwards no_error h = h
passed P tunnels no_error h = h
passed P responds no_error h = h

not-false : {b : Bool} → not b ≡ false → b ≡ true
not-false {b = true} e = refl
not-false {b = false} e = cc

module _ (platform : Platform) (api_key : String) where
  -- The request names no browser origin and carries the key, by its hash.
  abbrev pub IsTrusted : HttpRequest → Type 0
  IsTrusted req =
      (is_present req.origin ≡ false)
      × (platform.same_hash ("Bearer " ⊕ api_key) (or_empty req.authorization) ≡ true)

  trusted-Unless :
      (P : Type 0) (req : HttpRequest) (r : Route)
      → (IsTrusted req → Unless P r)
      → Unless P (
          if is_present req.origin
          then denied 403 "browser_origin_denied"
          else if not (is_authorized platform api_key req)
          then denied 401 "invalid_api_key"
          else r)
  trusted-Unless P req r h =
      if_cases (Unless P) (is_present req.origin) _ _ (λ browser. tt)
        λ no_origin.
          if_cases (Unless P) (not (is_authorized platform api_key req)) _ _ (λ wrong. tt)
            λ right. h ((no_origin, not-false right))

  -- Whatever a request is answered with but an error, be it the health check, the native runtime or
  -- the bridge, the request names no browser origin and carries the key.
  pub route-IsTrusted :
      (is_native : Bool) (req : HttpRequest)
      → ((status : ℕ) (code : String) → route platform api_key is_native req ≢ denied status code)
      → IsTrusted req
  unfolding route
  route-IsTrusted is_native req no_error =
      passed (IsTrusted req) (route platform api_key is_native req) no_error
        (trusted-Unless (IsTrusted req) req _ (Unless-any (IsTrusted req) _))
