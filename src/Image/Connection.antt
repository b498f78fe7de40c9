-- ===== src/Image/Connection.antt =====
-- scripts/desktop-image-mcp.mjs: `loadConnection`, from the parsed profile on, and `parseOptions`.
-- The parser of URLs and `path.isAbsolute` are the platform's.
pub mod Trusted
pub mod Absolute
use codex_official_bridge.Prelude.{
  ℕ, ◌+◌, ◌-◌, String, Bool, true, false, not, ◌&&◌, ◌||◌, Option, none, some, List, [], ◌∷◌, ◌++◌,
  length, leb, nat_eq, includes, ◌==◌, if◌then◌else◌,
}
use codex_official_bridge.Json.{Value, str, get, is_object}
use codex_official_bridge.Text.{is_blank}
use codex_official_bridge.Codes.{Codes, codes, same_codes, is_break, take, drop}
use codex_official_bridge.Image.{Failure, other, Outcome, done, failed, ◌>>=◌, fail}

pub record Url : Type 0 where
  pub protocol : String
  pub hostname : String
  pub username : String
  pub password : String
  pub search : String
  pub hash : String
  pub pathname : Codes

-- The paths of the endpoint and of the health check, on the origin of the base URL.
pub record Connection : Type 0 where
  pub base : Url
  pub endpoint : Codes
  pub health : Codes
  pub api_key : String

abbrev has_break : Codes → Bool
has_break [] = false
has_break (c ∷ cs) = is_break c || has_break cs

-- `key.trim() && !/[\r\n]/.test(key)`.
abbrev pub is_key : String → Bool
is_key key = not (is_blank key) && not (has_break (codes key))

abbrev pub is_loopback : Url → Bool
is_loopback url = includes ("127.0.0.1" ∷ "localhost" ∷ "[::1]" ∷ []) url.hostname

abbrev pub is_web : Url → Bool
is_web url = (url.protocol == "https:") || ((url.protocol == "http:") && is_loopback url)

abbrev pub is_plain : Url → Bool
is_plain url =
    (url.username == "") && (url.password == "") && (url.search == "") && (url.hash == "")

abbrev is_word : ℕ → Bool
is_word c =
    (leb b'A' c && leb c b'Z')
    || (leb b'a' c && leb c b'z')
    || (leb b'0' c && leb c b'9')
    || nat_eq c b'_'
    || nat_eq c b'-'

-- `/^(?:\/[A-Za-z0-9_-]+)*$/`, and the rest of a segment.
mutual
  pub is_mount : Codes → Bool
  is_mount [] = true
  is_mount (c ∷ cs) = nat_eq c b'/' && is_segment false cs

  is_segment : (some_yet : Bool) → Codes → Bool
  is_segment some_yet [] = some_yet
  is_segment some_yet (c ∷ cs) =
      (is_word c && is_segment true cs) || (some_yet && nat_eq c b'/' && is_segment false cs)

-- `path.replace(/\/$/, '')`.
unfoldable pub without_slash : Codes → Codes
without_slash [] = []
without_slash (c ∷ []) = if nat_eq c b'/' then [] else c ∷ []
without_slash (c ∷ d ∷ cs) = c ∷ without_slash (d ∷ cs)

-- `path.slice(0, -3)`.
abbrev pub mount_of : Codes → Codes
mount_of path = take (length path - 3) path

-- `/^(?:\/[A-Za-z0-9_-]+)*\/v1\/?$/`.
unfoldable pub is_api : Codes → Bool
is_api pathname =
    let path = without_slash pathname in
    same_codes (drop (length path - 3) path) (codes "/v1") && is_mount (mount_of path)

abbrev invalid : {A : Type 0} → (message : String) → Outcome A
invalid message = fail "profile_invalid" message

-- The text and the key of a profile.
abbrev pub profile_of : Value → Value → Outcome (String × String)
profile_of (str base_url) (str key) =
    if is_key key
    then done (base_url, key)
    else invalid "The selected connection.json requires base_url and api_key."
profile_of _ _ = invalid "The selected connection.json requires base_url and api_key."

abbrev pub connection_at : (key : String) → Option Url → Outcome Connection
connection_at key none = invalid "The connection base_url is invalid."
connection_at key (some base) =
    if not (is_web base && is_plain base && is_api base.pathname)
    then invalid "Use a bridge endpoint ending in /v1 over HTTPS or local loopback HTTP."
    else done (record {
      base = base;
      endpoint = without_slash base.pathname ++ codes "/images/generations";
      health = mount_of (without_slash base.pathname) ++ codes "/healthz";
      api_key = key;
    })

-- `loadConnection`, where the profile that was read and parsed is given.
unfoldable pub load_connection :
    (parse_url : String → Option Url) → (profile : Option Value) → Outcome Connection
load_connection parse_url none =
    fail "profile_unavailable" "The selected connection.json could not be read."
load_connection parse_url (some profile) =
    if not (is_object profile)
    then invalid "The selected connection.json requires base_url and api_key."
    else do
      (base_url, key) ← profile_of (get profile "base_url") (get profile "api_key")
      connection_at key (parse_url base_url)

pub record Options : Type 0 where
  pub profile_path : Option String
  pub output_roots : List String

module _ (is_absolute : String → Bool) where
  abbrev pub set_option : (flag value : String) → Options → Options
  set_option flag value options =
      if flag == "--profile"
      then record options { profile_path = some value }
      else record options { output_roots = options.output_roots ++ value ∷ [] }

  -- `parseOptions(argv)`, on the options so far; no output root reads as the default.
  unfoldable pub parse_options : List String → Options → Outcome Options
  parse_options [] options = done options
  parse_options (flag ∷ []) options = failed other
  parse_options (flag ∷ value ∷ rest) options =
      if not (includes ("--profile" ∷ "--output-root" ∷ []) flag)
        || (value == "")
        || not (is_absolute value)
      then failed other
      else parse_options rest (set_option flag value options)
