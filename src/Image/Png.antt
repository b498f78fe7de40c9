-- ===== src/Image/Png.antt =====
-- scripts/desktop-image-mcp.mjs: `inspectPng`, `base64Png` and `decodeImageResponse`. A buffer is
-- the list of its bytes; the base64 codec and `JSON.parse` are the platform's.
pub mod Total
pub mod Chunks
pub mod Walk
pub mod Encoded
pub mod Decoded
use codex_official_bridge.Prelude.{
  ℕ, zero, suc, ◌+◌, ◌-◌, ◌*◌, ◌/◌, ◌%◌, String, Bool, true, false, not, ◌&&◌, ◌||◌, Option, none,
  some, List, [], ◌∷◌, map, length, ltb, leb, nat_eq, ◌==◌, if◌then◌else◌,
}
use codex_official_bridge.Json.{Value, arr, cons, nil, get, str}
use codex_official_bridge.Codes.{Codes, codes, same_codes, take, drop}
use codex_official_bridge.Text.{utf16_length}
use codex_official_bridge.Image.{Failure, other, out_of_fuel, Outcome, done, failed, ◌>>=◌, fail}

abbrev pub number : Codes → Outcome ℕ
number (a ∷ b ∷ c ∷ d ∷ rest) = done (((a * 256 + b) * 256 + c) * 256 + d)
number _ = failed other

-- `buffer.readUInt32BE(offset)`, which throws a RangeError behind the end.
unfoldable pub read_u32 : ℕ → Codes → Outcome ℕ
read_u32 offset buffer = number (drop offset buffer)

-- `buffer.toString('ascii', offset, offset + 4)`, which ignores the highest bit of a byte.
abbrev pub ascii4 : ℕ → Codes → Codes
ascii4 offset buffer = map (λ b. b % 128) (take 4 (drop offset buffer))

abbrev pub incomplete : {A : Type 0} → Outcome A
incomplete = fail "invalid_image" "The returned PNG is incomplete."

-- The `while` loop: whether image data were seen, and whether the end is the last chunk.
unfoldable pub walk : (fuel offset : ℕ) → (seen : Bool) → Codes → Outcome (Bool × Bool)
walk zero offset seen buffer = failed out_of_fuel
walk (suc fuel) offset seen buffer =
    if ltb (length buffer) (offset + 12) then done (seen, false) else do
      size ← read_u32 offset buffer
      let type : Codes = ascii4 (offset + 4) buffer
      let data_seen : Bool = seen || same_codes type (codes "IDAT")
      elim (ltb (length buffer - offset - 12) size) [
        | true ↦ incomplete
        | false ↦ elim (same_codes type (codes "IEND")) [
          | true ↦ done (data_seen, nat_eq size 0 && nat_eq (offset + 12) (length buffer))
          | false ↦ walk fuel (offset + (12 + size)) data_seen buffer
        ]
      ]

pub record Png : Type 0 where
  pub width : ℕ
  pub height : ℕ

abbrev pub signature : Codes
signature = 137 ∷ 80 ∷ 78 ∷ 71 ∷ 13 ∷ 10 ∷ 26 ∷ 10 ∷ []

abbrev pub no_png : {A : Type 0} → Outcome A
no_png = fail "invalid_image" "The endpoint did not return a valid PNG image."

-- The first test, whose terms are read from left to right.
abbrev pub check_header : Codes → Outcome (Unit {0})
check_header buffer =
    if ltb (length buffer) 33
    then no_png
    else if not (same_codes (take 8 buffer) signature)
    then no_png
    else if not (same_codes (ascii4 12 buffer) (codes "IHDR"))
    then no_png
    else do size ← read_u32 8 buffer; elim (nat_eq size 13) [ true ↦ done tt | false ↦ no_png ]

abbrev pub check_sizes : (width height : ℕ) → Outcome (Unit {0})
check_sizes width height =
    if nat_eq width 0
      || nat_eq height 0
      || ltb 32768 width
      || ltb 32768 height
      || ltb 100000000 (width * height)
    then fail "invalid_image" "The returned PNG dimensions are invalid."
    else done tt

-- `inspectPng(buffer)`: a chunk has twelve bytes at least, so that the buffer's length is enough
-- fuel.
unfoldable pub inspect_png : Codes → Outcome Png
unfolding walk
inspect_png buffer = do
  _ ← check_header buffer
  width ← read_u32 16 buffer
  height ← read_u32 20 buffer
  _ ← check_sizes width height
  (seen, ends) ← walk (length buffer) 8 false buffer
  elim (seen && ends) [
    | true ↦ done (record { width = width; height = height })
    | false ↦ incomplete
  ]

abbrev is_alphabet : ℕ → Bool
is_alphabet c =
    (leb b'A' c && leb c b'Z')
    || (leb b'a' c && leb c b'z')
    || (leb b'0' c && leb c b'9')
    || nat_eq c b'+'
    || nat_eq c b'/'

-- `/^[A-Za-z0-9+/]*={0,2}$/`.
abbrev pub is_base64 : Codes → Bool
is_base64 [] = true
is_base64 (c ∷ cs) =
    (is_alphabet c && is_base64 cs)
    || same_codes (c ∷ cs) (codes "=")
    || same_codes (c ∷ cs) (codes "==")

abbrev pub bad_data : {A : Type 0} → Outcome A
bad_data = fail "invalid_image" "The endpoint returned invalid image data."

-- The first test of `base64Png` on a text, with `Math.ceil(MAX_IMAGE_BYTES / 3) * 4`.
abbrev pub is_image_text : String → Bool
is_image_text text =
    let size = utf16_length text in
    not (nat_eq size 0) && leb size 44739244 && nat_eq (size % 4) 0 && is_base64 (codes text)

module _ (decode : String → Codes) (encode : Codes → String) where
  -- `base64Png(value)` at a text.
  unfoldable pub base64_png : String → Outcome Codes
  base64_png text =
      if not (is_image_text text)
      then bad_data
      else if not (encode (decode text) == text)
      then bad_data
      else (inspect_png (decode text) >>= λ p. done (decode text))

  abbrev pub base64_value : Value → Outcome Codes
  base64_value (str text) = base64_png text
  base64_value _ = bad_data

  abbrev pub only_image : Value → Outcome Codes
  only_image (arr (cons image nil)) = base64_value (get image "b64_json")
  only_image _ = fail "invalid_response" "Expected exactly one image in the response."

  abbrev pub image_of : Option Value → Outcome Codes
  image_of none = fail "invalid_response" "The image endpoint returned invalid JSON."
  image_of (some body) = only_image (get body "data")

  -- `decodeImageResponse(buffer, contentType)`, where `parse` is `JSON.parse` of the UTF-8 text, and
  -- whether the content type fits `/^application\/json(?:\s*;|$)/i` is given.
  unfoldable pub decode_image_response :
      (parse : Codes → Option Value) (is_json : Bool) (buffer : Codes) → Outcome Codes
  decode_image_response parse is_json buffer =
      if not is_json
      then fail "unsupported_response"
          "The image endpoint must return JSON containing embedded PNG data."
      else image_of (parse buffer)
