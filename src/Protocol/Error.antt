-- ===== src/Protocol/Error.antt =====
-- src/protocol.mjs: `BridgeError`, `turnErrorToBridgeError`, `errorBody`, and exceptions as values.
use codex_official_bridge.Prelude.{
  ℕ, String, Bool, true, false, Option, none, [], ◌∷◌, ◌==◌, ltb, includes, if◌then◌else◌,
}
use codex_official_bridge.Json.{Value, str, get}

pub record BridgeError : Type 0 where
  pub status : ℕ
  pub code : String
  pub message : String
  pub param : Option String

-- `new BridgeError(status, code, message, param = null)`.
abbrev pub bridge_error : ℕ → String → String → Option String → BridgeError
bridge_error status code message param = record {
  status = status;
  code = code;
  message = message;
  param = param;
}

-- What a `throw` carries: a `BridgeError`, or another exception, of which only that is seen.
pub data Thrown : Type 0 where
  bridge : BridgeError → Thrown
  other : Thrown

pub data Result {ℓ} (A : Type ℓ) : Type ℓ where
  ok : A → Result A
  throw : Thrown → Result A

infixl 5 ◌>>=◌ ◌>>◌
unfoldable pub ◌>>=◌ {ℓ κ} : {A : Type ℓ} {B : Type κ} → Result A → (A → Result B) → Result B
ok a >>= f = f a
throw e >>= f = throw e

abbrev pub ◌>>◌ {ℓ} : {B : Type ℓ} → Result (Unit {0}) → Result B → Result B
m >> k = m >>= λ _. k

-- `if (test) throw new BridgeError(...)`.
abbrev pub throw_if : Bool → BridgeError → Result (Unit {0})
throw_if true e = throw (bridge e)
throw_if false e = ok tt

overloaded : BridgeError
overloaded =
    bridge_error 503 "upstream_overloaded" "The upstream service is at capacity. Try again later."
      none

usage_limit : BridgeError
usage_limit =
    bridge_error 429 "upstream_usage_limit" "The official account reached an upstream usage limit."
      none

turn_failed : BridgeError
turn_failed = bridge_error 502 "codex_turn_failed" "Official Codex did not complete this turn." none

abbrev project_info : Value → BridgeError
project_info (str info) =
    if info == "serverOverloaded"
    then overloaded
    else if includes ("usageLimitExceeded" ∷ "rateLimitExceeded" ∷ "sessionBudgetExceeded" ∷ [])
        info
    then usage_limit
    else turn_failed
project_info _ = turn_failed

-- Only the category is used: no text of the upstream error reaches the result.
unfoldable pub turn_error_to_bridge_error : Value → BridgeError
unfolding get overloaded usage_limit turn_failed
turn_error_to_bridge_error error = project_info (get error "codexErrorInfo")

pub record ErrorBody : Type 0 where
  pub type : String
  pub code : String
  pub message : String
  pub param : Option String

unfoldable pub error_body : Thrown → ErrorBody
error_body (bridge e) = record {
  type = if ltb e.status 500 then "invalid_request_error" else "server_error";
  code = e.code;
  message = e.message;
  param = e.param;
}
error_body other = record {
  type = "server_error";
  code = "bridge_error";
  message = "The Codex bridge failed. Check the local operator diagnostics.";
  param = none;
}
