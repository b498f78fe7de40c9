-- ===== src/Image/Service.antt =====
-- scripts/desktop-image-mcp.mjs: `generate` of `createImageService`, with what the connection, the
-- endpoint and the file system answer as its inputs.
pub mod Kept
use codex_official_bridge.Prelude.{
  ℕ, zero, suc, ◌+◌, String, Bool, true, false, not, ◌&&◌, ◌||◌, Option, none, some, List, [], ◌∷◌,
  length, ltb, nat_eq, ◌==◌, includes, if◌then◌else◌,
}
use codex_official_bridge.Json.{
  Value, undefined, str, get, is_object, is_string, is_undefined, keys_of,
}
use codex_official_bridge.Text.{is_blank, utf16_length}
use codex_official_bridge.Codes.{Codes}
use codex_official_bridge.Body.{read_chunks}
use codex_official_bridge.Image.{Failure, tool_error, other, Outcome, done, failed, ◌>>=◌, fail}
use codex_official_bridge.Image.Png.{Png, inspect_png, decode_image_response}

-- The response of the endpoint: its status, whether it has a body, the chunks of the body, whether
-- the stream breaks behind them, and whether the content type is that of JSON.
pub record Response : Type 0 where
  pub status : ℕ
  pub has_body : Bool
  pub chunks : List Codes
  pub breaks : Bool
  pub is_json : Bool

-- What is outside: `fetch`, which may throw, cancelling a body, writing, syncing, closing and
-- removing the reserved file, and what is in the file after a write that throws.
pub record World : Type 0 where
  pub response : Option Response
  pub cancels : Bool
  pub writes : Bool
  pub part : Codes
  pub syncs : Bool
  pub closes : Bool
  pub removes : Bool

-- The reserved file, which is empty at first, and the number of requests sent.
pub record Store : Type 0 where
  pub file : Option Codes
  pub requests : ℕ

pub record Saved : Type 0 where
  pub path : String
  pub png : Png
  pub bytes : ℕ

abbrev all_known : List String → Bool
all_known [] = true
all_known (k ∷ ks) = includes ("prompt" ∷ "output_path" ∷ []) k && all_known ks

abbrev is_prompt : Value → Bool
is_prompt (str s) = not (is_blank s) && not (ltb 32000 (utf16_length s))
is_prompt _ = false

-- The test of the arguments.
abbrev pub accepts : Value → Bool
accepts args =
    is_object args
    && all_known (keys_of args)
    && is_prompt (get args "prompt")
    && (is_undefined (get args "output_path") || is_string (get args "output_path"))

abbrev is_ok : ℕ → Bool
is_ok status = not (ltb status 200) && ltb status 300

abbrev interrupted : {A : Type 0} → Outcome A
interrupted =
    fail "completion_uncertain"
      "The bridge accepted the image request, but the response stream was interrupted. Generation may have completed; do not automatically retry."

abbrev too_large : {A : Type 0} → Outcome A
too_large = fail "response_too_large" "The image response exceeded the configured limit."

-- `limitedBody(response, MAX_RESPONSE_BYTES)` and its `catch`.
unfoldable pub limited_body : Response → Outcome Codes
limited_body r =
    if not r.has_body
    then fail "empty_response" "The image endpoint returned no response body."
    else read_chunks too_large (λ bytes. if r.breaks then interrupted else done bytes) 67108864 0 []
        r.chunks

module _ (decode : String → Codes) (encode : Codes → String) (parse : Codes → Option Value)
    (world : World) where
  -- From the response on: the image that is to be saved.
  abbrev pub image_in : Option Response → Outcome Codes
  image_in none =
      fail "image_request_interrupted"
        "The image request did not finish. Completion may be uncertain; do not automatically retry."
  image_in (some r) =
      if not (is_ok r.status)
      then (if world.cancels
          then failed (
              tool_error "image_request_failed" "The bridge rejected the image request."
                (some r.status))
          else failed other)
      else do body ← limited_body r; decode_image_response decode encode parse r.is_json body

  -- `writeFile`, `sync` and `saved = true`: whether the image is saved, and what is in the file.
  abbrev pub write : Codes → Store → Bool × Store
  write image store =
      if not world.writes
      then (false, record store { file = some world.part })
      else (world.syncs, record store { file = some image })

  abbrev pub measured : Outcome Codes → Outcome (Codes × Png)
  measured (failed e) = failed e
  measured (done image) = inspect_png image >>= λ p. done (image, p)

  abbrev pub written : (path : String) → Codes × Png → Bool × Store → Outcome Saved × (Bool × Store)
  written path (image, p) (true, store) =
      (done (record { path = path; png = p; bytes = length image }), (true, store))
  written path (image, p) (false, store) = (failed other, (false, store))

  abbrev pub save : (path : String) → Store → Outcome (Codes × Png) → Outcome Saved × (Bool × Store)
  save path store (failed e) = (failed e, (false, store))
  save path store (done (image, p)) = written path (image, p) (write image store)

  -- The `try` block, and whether it saved.
  unfoldable pub attempt : (path : String) → Store → Outcome Saved × (Bool × Store)
  attempt path store =
      save path (record store { requests = suc store.requests })
        (measured (image_in world.response))

  -- The `finally` block.
  unfoldable pub release : Outcome Saved × (Bool × Store) → Outcome Saved × Store
  release (result, (saved, store)) =
      if not world.closes
      then (failed other, store)
      else if not saved && world.removes
      then (result, record store { file = none })
      else (result, store)

  abbrev pub start_in : Store → Outcome String → Outcome Saved × Store
  start_in store (failed e) = (failed e, store)
  start_in store (done path) = release (attempt path (record store { file = some [] }))

  -- `generate(args)`, where the connection, the reservation of the output and its path are given.
  unfoldable pub generate :
      (args : Value)
      → (connected : Outcome (Unit {0})) → (reserved : Outcome String) → Outcome Saved × Store
  unfolding attempt release
  generate args connected reserved =
      let untouched : Store = record { file = none; requests = 0 } in
      if not (accepts args)
      then (
        fail "invalid_arguments"
            "Supply a nonempty prompt of at most 32000 characters and an optional absolute output_path.",
        untouched,
      )
      else start_in untouched (connected >>= λ _. reserved)
