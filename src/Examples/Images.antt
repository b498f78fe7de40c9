-- ===== src/Examples/Images.antt =====
-- Runs of the models of scripts/desktop-image-mcp.mjs on concrete inputs.
use codex_official_bridge.Prelude.{
  ℕ, ◌+◌, ◌≤◌, String, ◌≡◌, refl, Bool, true, false, Option, none, some, List, [], ◌∷◌, ◌==◌, arith,
  if◌then◌else◌,
}
use codex_official_bridge.Json.{Value, num, nat, str, obj, arr, cons, nil, field, end, null}
use codex_official_bridge.Codes.{Codes, codes}
use codex_official_bridge.Image.{done}
use codex_official_bridge.Image.Verdict.{Verdict, Unbound}
use codex_official_bridge.Image.Png.{inspect_png, incomplete, decode_image_response}
use codex_official_bridge.Image.Png.Chunks.{Chunk, has_data}
use codex_official_bridge.Image.Png.Encoded.{png_file, inspect_png-png_file}
use codex_official_bridge.Image.Png.Total.{Yields, IsDrawable, inspect_png-Yields}
use codex_official_bridge.Image.Png.Decoded.{HasImage, IsEmbedded, decode_image_response-IsEmbedded}
use codex_official_bridge.Image.Stdio.{Step, receives, settles, ends, new, run}
use codex_official_bridge.Image.Stdio.Counts.{count_active, count_results, count_started}
use codex_official_bridge.Image.Stdio.Once.{run-answers_once}
use codex_official_bridge.Image.Stdio.Bounds.{IsPart, run-IsPart}
use codex_official_bridge.Image.Service.{World, generate}
use codex_official_bridge.Image.Service.Kept.{IsClean, generate-IsClean}
use codex_official_bridge.Image.Connection.{Url, parse_options}
use codex_official_bridge.Image.Connection.Absolute.{IsPlain, IsAbsolute, parse_options-IsAbsolute}
use codex_official_bridge.Image.Output.{Platform, there, missing, opened}

abbrev four : ℕ × ℕ × ℕ × ℕ
four = (1, 2, 3, 4)

abbrev extra : ℕ × ℕ × ℕ × ℕ × ℕ
extra = (8, 6, 0, 0, 0)

abbrev image_data : Chunk
image_data = record { t0 = 73; t1 = 68; t2 = 65; t3 = 84; content = 7 ∷ 7 ∷ []; crc = four }

abbrev picture : Codes
picture = png_file 2 3 extra four four (image_data ∷ [])

inspect_png_result : inspect_png picture ≡ done (record { width = 2; height = 3 })
inspect_png_result =
    inspect_png-png_file 2 3 extra four four (image_data ∷ [])
      (omega arith, omega arith, omega arith, omega arith, omega arith)
      ((omega arith, omega arith, omega arith, omega arith, omega arith, refl), tt)

inspect_png-png_file_example :
    inspect_png (png_file 2 3 extra four four (image_data ∷ []))
    ≡ (if has_data (image_data ∷ []) then done (record { width = 2; height = 3 }) else incomplete)
inspect_png-png_file_example =
    inspect_png-png_file 2 3 extra four four (image_data ∷ [])
      (omega arith, omega arith, omega arith, omega arith, omega arith)
      ((omega arith, omega arith, omega arith, omega arith, omega arith, refl), tt)

inspect_png-Yields_example : Yields IsDrawable (inspect_png picture)
inspect_png-Yields_example = inspect_png-Yields picture

abbrev body : Value
body = obj (field "data" (arr (cons (obj (field "b64_json" (str "iVBORw0KGgo=") end)) nil)) end)

abbrev decode : String → Codes
decode text = picture

abbrev encode : Codes → String
encode bytes = "iVBORw0KGgo="

abbrev parse_body : Codes → Option Value
parse_body bytes = some body

decode_image_response-IsEmbedded_example :
    Verdict Unbound
      (λ image.
        (parsed : Value) × (text : String) × (parse_body (codes "{}") ≡ some parsed)
        × HasImage parsed text
        × IsEmbedded decode encode text image)
      (decode_image_response decode encode parse_body true (codes "{}"))
decode_image_response-IsEmbedded_example =
    decode_image_response-IsEmbedded decode encode parse_body true (codes "{}")

-- The first line opens the session, every other calls the tool for images.
abbrev message : String → Value
message method = obj (
    field "jsonrpc" (str "2.0") (
      field "id" (num (nat 7)) (
        field "method" (str method)
          (field "params" (obj (field "name" (str "generate_image") end)) end))))

abbrev parse_line : Codes → Option Value
parse_line [] = none
parse_line (c ∷ []) = some (message "initialize")
parse_line (c ∷ cs) = some (message "tools/call")

abbrev steps : List Step
steps =
    receives (65 ∷ 10 ∷ 66 ∷ [])
    ∷ receives (66 ∷ 10 ∷ 66 ∷ 66 ∷ 10 ∷ [])
    ∷ settles (num (nat 7)) (done null)
    ∷ ends
    ∷ []

run-answers_once_example :
    ((i : Value)
      → count_active i (run parse_line new steps).active
          + count_results i (run parse_line new steps).sent
        ≡ count_started i (run parse_line new steps).started)
    × ((i : Value) → count_active i (run parse_line new steps).active ≤ 1)
    × ((run parse_line new steps).initialized ≡ false → (run parse_line new steps).started ≡ [])
run-answers_once_example = run-answers_once parse_line steps

run-IsPart_example : IsPart (run parse_line new steps).pending
run-IsPart_example = run-IsPart parse_line steps

abbrev world : World
world = record {
  response = some (record {
    status = 200;
    has_body = true;
    chunks = codes "{}" ∷ [];
    breaks = false;
    is_json = true;
  });
  cancels = true;
  writes = true;
  part = [];
  syncs = true;
  closes = true;
  removes = true;
}

abbrev arguments : Value
arguments = obj (field "prompt" (str "a fox") end)

generate-IsClean_example :
    IsClean (generate decode encode parse_body world arguments (done tt) (done "/out/a.png"))
generate-IsClean_example =
    generate-IsClean decode encode parse_body world arguments (done tt) (done "/out/a.png") refl
      refl

abbrev base : Url
base = record {
  protocol = "https:";
  hostname = "example.org";
  username = "";
  password = "";
  search = "";
  hash = "";
  pathname = codes "/codex/v1/";
}

abbrev profile : Value
profile =
    obj (field "base_url" (str "https://example.org/codex/v1/") (field "api_key" (str "k") end))

abbrev parse_url : String → Option Url
parse_url text = some base

abbrev is_root : String → Bool
is_root path = path == "/"

parse_options-IsAbsolute_example : Verdict IsPlain (IsAbsolute is_root) (
    parse_options is_root
      ("--profile" ∷ "/" ∷ [])
      (record { profile_path = none; output_roots = [] }))
parse_options-IsAbsolute_example =
    parse_options-IsAbsolute is_root ("--profile" ∷ "/" ∷ [])
      (record { profile_path = none; output_roots = [] }) (tt, tt)

-- A file system with one directory below its root.
abbrev parent_of : String → String
parent_of path = if path == "/out/a.png" then "/out" else "/"

abbrev platform : Platform
platform = record {
  separator = "/";
  is_absolute = λ path. true;
  is_png = λ path. true;
  relative = λ root target. "";
  resolve = λ path. path;
  dirname = parent_of;
  basename = λ path. "a.png";
  join = λ directory name. "/out/a.png";
  realpath = λ path. if path == "/" then there "/" else missing;
  makes = true;
  realpath_after = λ path. there path;
  opens = λ path. opened;
}

abbrev depth : String → ℕ
depth path = if path == "/out/a.png" then 2 else (if path == "/" then 0 else 1)
