-- ===== src/Runtime.antt =====
-- src/runtime.mjs: `integer`, the options read from the environment, `configArguments` and
-- `codexEnvironment`. Paths are texts that the file system resolves elsewhere.
pub mod Laws
use codex_official_bridge.Prelude.{
  ℕ, String, Bool, true, false, not, ◌&&◌, ◌||◌, Option, none, some, List, [], ◌∷◌, ◌++◌, ◌==◌, ◌⊕◌,
  ltb, includes, if◌then◌else◌,
}
use codex_official_bridge.Json.{Value}
use codex_official_bridge.Json.Print.{stringify}
use codex_official_bridge.Text.{strip_prefix}
use codex_official_bridge.Protocol.Error.{Thrown, Result, ok, throw, ◌>>=◌, ◌>>◌}
use codex_official_bridge.Assoc.{find, put, drop_keys}

abbrev pub Env : Type 0
Env = List (String × String)

abbrev pub starts_with : String → String → Bool
starts_with p s = elim (strip_prefix p s) [ none ↦ false | some rest ↦ true ]

abbrev provider_keys : List String
provider_keys =
    "OPENAI_API_KEY" ∷ "OPENAI_BASE_URL" ∷ "OPENAI_ORG_ID" ∷ "OPENAI_PROJECT_ID"
    ∷ "CHATGPT_BASE_URL" ∷ "CODEX_API_BASE_URL" ∷ []

-- The keys that the child does not get.
unfoldable pub is_withheld : String → Bool
is_withheld key =
    starts_with "BRIDGE_" key
    || (starts_with "CODEX_" key && not (includes ("CODEX_HOME" ∷ "CODEX_CA_CERTIFICATE" ∷ []) key))
    || includes provider_keys key

-- `codexEnvironment(codexHome, source)`.
unfoldable pub codex_environment : String → Env → Env
codex_environment codex_home source = drop_keys is_withheld (put source "CODEX_HOME" codex_home)

-- `configArguments(config)`.
unfoldable pub config_arguments : List (String × Value) → List String
config_arguments [] = []
config_arguments ((key, value) ∷ rest) =
    "-c" ∷ (key ⊕ "=" ⊕ stringify value) ∷ config_arguments rest

module _ (number : String → Option ℕ) where
  -- `integer(value, fallback, name, min, max)`: `number` is `Number(value)` where that is a natural
  -- number, and no other number lies between bounds that are at least 1.
  unfoldable pub integer : Option String → (fallback min max : ℕ) → Result ℕ
  integer none fallback min max = ok fallback
  integer (some text) fallback min max = elim (number text) [
    | none ↦ throw Thrown.other
    | some n ↦ if ltb n min || ltb max n then throw Thrown.other else ok n
  ]

  pub record Options : Type 0 where
    pub mode : String
    pub native_command : Option String
    pub startup_timeout_ms : ℕ
    pub api_key : Option String
    pub port : ℕ
    pub command : String
    pub default_model : Option String
    pub request_timeout_ms : ℕ
    pub session_ttl_ms : ℕ

  abbrev or_else : String → Option String → String
  or_else default none = default
  or_else default (some s) = s

  abbrev check_mode : String → Result (Unit {0})
  check_mode mode = if includes ("native" ∷ "legacy" ∷ []) mode then ok tt else throw Thrown.other

  -- `runtimeOptions(env)`, without the directories that it makes and resolves.
  unfoldable pub runtime_options : Env → Result Options
  runtime_options env = do
    let mode = or_else "native" (find env "BRIDGE_MODE")
    check_mode mode
    startup ← integer (find env "BRIDGE_NATIVE_STARTUP_TIMEOUT_MS") 120000 1000 600000
    port ← integer (find env "BRIDGE_PORT") 8789 1 65535
    timeout ← integer (find env "BRIDGE_REQUEST_TIMEOUT_MS") 120000 1000 600000
    ttl ← integer (find env "BRIDGE_SESSION_TTL_MS") 300000 1000 3600000
    ok (record {
      mode = mode;
      native_command = find env "BRIDGE_NATIVE_BIN";
      startup_timeout_ms = startup;
      api_key = find env "BRIDGE_API_KEY";
      port = port;
      command = or_else "codex" (find env "BRIDGE_CODEX_BIN");
      default_model = find env "BRIDGE_MODEL";
      request_timeout_ms = timeout;
      session_ttl_ms = ttl;
    })
