-- ===== src/Image/Png/Decoded.antt =====
-- scripts/desktop-image-mcp.mjs, `decodeImageResponse`: the image that a response holds.
use codex_official_bridge.Prelude.{
  String, ◌≡◌, refl, Bool, true, not, not-false, Option, none, some, ◌==◌, eq_iff, if_cases,
  if_both,
}
use codex_official_bridge.Json.{Value, str, arr, cons, nil, get}
use codex_official_bridge.Codes.{Codes}
use codex_official_bridge.Image.{Outcome, done, failed, ◌>>=◌}
use codex_official_bridge.Image.Verdict.{Verdict, Verdict-map, Verdict-done, Verdict-error, Unbound}
use codex_official_bridge.Image.Png.{
  Png, is_image_text, base64_png, base64_value, only_image, image_of, decode_image_response,
  inspect_png,
}

-- The only image of a response body, by its base64 text.
abbrev pub HasImage : Value → String → Type 0
HasImage body text =
    (image : Value) × (get body "data" ≡ arr (cons image nil)) × (get image "b64_json" ≡ str text)

module _ (decode : String → Codes) (encode : Codes → String) where
  -- The other direction of the codec gives the very text, which is base64, and the inspection takes
  -- the image.
  abbrev pub IsEmbedded : String → Codes → Type 0
  IsEmbedded text image =
      (is_image_text text ≡ true)
      × (decode text ≡ image)
      × (encode image ≡ text)
      × ((p : Png) × (inspect_png image ≡ done p))

  base64_png-IsEmbedded :
      (text : String) → Verdict Unbound (IsEmbedded text) (base64_png decode encode text)
  unfolding base64_png ◌>>=◌
  base64_png-IsEmbedded text =
      if_cases (Verdict Unbound (IsEmbedded text)) (not (is_image_text text)) _ _
        (λ wrong. Verdict-error Unbound _ _ tt)
        λ right.
          if_cases (Verdict Unbound (IsEmbedded text)) (not (encode (decode text) == text)) _ _
            (λ other. Verdict-error Unbound _ _ tt)
            λ same.
              inspected (not-false (is_image_text text) right)
                ((eq_iff (encode (decode text)) text).0 (not-false _ same))
                (inspect_png (decode text)) refl
    where
      inspected :
          is_image_text text ≡ true
          → encode (decode text) ≡ text
          → (r : Outcome Png) → inspect_png (decode text) ≡ r
          → Verdict Unbound (IsEmbedded text) (r >>= λ p. done (decode text))
      inspected fits back (done p) e = Verdict-done Unbound _ _ (fits, refl, back, (p, e))
      inspected fits back (failed f) e = Verdict-error Unbound _ f tt

  abbrev IsText : Value → Codes → Type 0
  IsText v image = (text : String) × (v ≡ str text) × IsEmbedded text image

  base64_value-IsText : (v : Value) → Verdict Unbound (IsText v) (base64_value decode encode v)
  base64_value-IsText (str text) =
      Verdict-map Unbound _ _ _ (base64_png-IsEmbedded text) λ image h. (text, refl, h)
  base64_value-IsText v = Verdict-error Unbound _ _ tt

  abbrev IsOnly : Value → Codes → Type 0
  IsOnly v image =
      (entry : Value) × (v ≡ arr (cons entry nil)) × IsText (get entry "b64_json") image

  only_image-IsOnly : (v : Value) → Verdict Unbound (IsOnly v) (only_image decode encode v)
  only_image-IsOnly (arr (cons entry nil)) =
      Verdict-map Unbound _ _ _ (base64_value-IsText (get entry "b64_json"))
        λ image h. (entry, refl, h)
  only_image-IsOnly v = Verdict-error Unbound _ _ tt

  -- Whatever the codec and the parser: what is decoded is the only image of the parsed body, whose
  -- base64 text is the one that the codec writes for it, and passes the inspection.
  pub decode_image_response-IsEmbedded :
      (parse : Codes → Option Value) (is_json : Bool) (buffer : Codes)
      → Verdict Unbound
          (λ image.
            (body : Value) × (text : String) × (parse buffer ≡ some body)
            × HasImage body text
            × IsEmbedded text image)
          (decode_image_response decode encode parse is_json buffer)
  unfolding decode_image_response
  decode_image_response-IsEmbedded parse is_json buffer =
      if_both (Verdict Unbound _) (not is_json) _ _ (Verdict-error Unbound _ _ tt)
        (of_parsed (parse buffer))
    where
      of_parsed :
          (o : Option Value)
          → Verdict Unbound
              (λ image.
                (body : Value) × (text : String) × (o ≡ some body)
                × HasImage body text
                × IsEmbedded text image)
              (image_of decode encode o)
      of_parsed none = Verdict-error Unbound _ _ tt
      of_parsed (some body) =
          Verdict-map Unbound _ _ _ (only_image-IsOnly (get body "data"))
            λ image (entry, e, (text, f, h)). (body, text, refl, (entry, e, f), h)
