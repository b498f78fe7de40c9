-- ===== src/Native/Laws.antt =====
-- src/native-runtime.mjs: which headers pass, and which bodies are read.
use codex_official_bridge.Prelude.{
  ◌⊎◌, inl, inr, Bool, Bool-cases, true, false, refl, ap, sym, subst, ◌∙◌, map, [], ◌∷◌, ◌++◌, ◌||◌,
  All, Among, arith, ℕ, String, ◌≡◌, none, List, length, leb, if◌then◌else◌,
}
use codex_official_bridge.Protocol.Error.{bridge, ok, throw}
use codex_official_bridge.Assoc.{find}
use codex_official_bridge.Assoc.Laws.{find-drop_keys}
use codex_official_bridge.Body.Laws.{joined, read_all-joined}
use codex_official_bridge.Codes.{Codes, codes, same_codes, trim, split}
use codex_official_bridge.Codes.Laws.{
  same_codes-path, same_codes_refl, separated_by, IsPart, split-separated_by,
}
use codex_official_bridge.Native.{
  Headers, lower, has_name, or_empty, connection_names, hop_headers, private_headers, is_excluded,
  transport_headers, read_body, too_large,
}

-- The names of headers that never pass, in lower case: those of a hop, those with credentials or
-- an account, and the host.
abbrev fixed_names : List String
fixed_names =
    "connection" ∷ "keep-alive" ∷ "proxy-authenticate" ∷ "proxy-authorization" ∷ "te" ∷ "trailer"
    ∷ "transfer-encoding" ∷ "upgrade" ∷ "authorization" ∷ "cookie" ∷ "set-cookie" ∷ "x-api-key"
    ∷ "api-key" ∷ "chatgpt-account-id" ∷ "chatgpt-user-id" ∷ "openai-organization"
    ∷ "openai-project" ∷ "x-openai-actor-authorization" ∷ "x-openai-fedramp"
    ∷ "x-codex-runtime-token" ∷ "host" ∷ []

abbrev pub lowered : Codes → Codes
lowered text = map lower text

-- A name that is fixed, or among the parts of the `connection` header, in whatever case.
abbrev pub IsDropped : (parts : List Codes) → String → Type 0
IsDropped parts name =
    Among (lowered (codes name)) (map codes fixed_names)
    ⊎ Among (lowered (codes name)) (map (λ part. lowered (trim part)) parts)

has_name-Among :
    (names : List Codes) (name : String)
    → has_name names name ≡ true
    → Among (lowered (codes name)) (map lowered names)
has_name-Among [] name e = cc
has_name-Among (n ∷ names) name e =
    elim (Bool-cases (same_codes (lowered n) (lowered (codes name)))) [
      | inl same ↦ inl (same_codes-path (lowered n) (lowered (codes name)) same)
      | inr differs ↦ inr (has_name-Among names name (ground (arith, e, differs)))
    ]

Among-has_name :
    (names : List Codes) (name : String)
    → Among (lowered (codes name)) (map lowered names)
    → has_name names name ≡ true
Among-has_name [] name h = absurd h
Among-has_name (n ∷ names) name (inl same) =
    ground (arith, ap (same_codes (lowered n)) same, same_codes_refl (lowered n))
Among-has_name (n ∷ names) name (inr h) = ground (arith, Among-has_name names name h)

or_left : (a b : Bool) → a ≡ true → (a || b) ≡ true
or_left a b e = ground arith

or_right : (a b : Bool) → b ≡ true → (a || b) ≡ true
or_right a b e = ground arith

or_other : (a b : Bool) → (a || b) ≡ true → a ≡ false → b ≡ true
or_other a b e f = ground arith

-- The names of the source, as codes.
abbrev always : List Codes
always = map codes (hop_headers ++ private_headers ++ "host" ∷ [])

map-map :
    (parts : List Codes) → map lowered (map trim parts) ≡ map (λ part. lowered (trim part)) parts
map-map [] = refl
map-map (part ∷ parts) = ap (λ rest. lowered (trim part) ∷ rest) (map-map parts)

module _ (headers : Headers) (first : Codes) (parts : List Codes)
    (written : codes (or_empty (find headers "connection")) ≡ separated_by b',' first parts)
    (h : IsPart b',' first) (hs : All (IsPart b',') parts) where
  names_of : connection_names headers ≡ map trim (first ∷ parts)
  unfolding connection_names
  names_of =
      ap (λ text. map trim (split b',' text)) written
      ∙ ap (map trim) (split-separated_by b',' first parts h hs)

  IsDropped-is_excluded :
      (name : String) → IsDropped (first ∷ parts) name → is_excluded headers name ≡ true
  unfolding is_excluded
  IsDropped-is_excluded name (inl fixed) =
      or_left (has_name always name) (has_name (connection_names headers) name)
        (Among-has_name always name fixed)
  IsDropped-is_excluded name (inr part) =
      or_right (has_name always name) (has_name (connection_names headers) name) (
        ap (λ names. has_name names name) names_of
        ∙ Among-has_name (map trim (first ∷ parts)) name
            (subst (Among (lowered (codes name))) (sym (map-map (first ∷ parts))) part))

  is_excluded-IsDropped :
      (name : String) → is_excluded headers name ≡ true → IsDropped (first ∷ parts) name
  unfolding is_excluded
  is_excluded-IsDropped name e = elim (Bool-cases (has_name always name)) [
    | inl fixed ↦ inl (has_name-Among always name fixed)
    | inr other ↦ inr (
        subst (Among (lowered (codes name))) (map-map (first ∷ parts)) (
          has_name-Among (map trim (first ∷ parts)) name (
            ap (λ names. has_name names name) (sym names_of)
            ∙ or_other (has_name always name) (has_name (connection_names headers) name) e other)))
  ]

  -- For every list of headers, where the value of `connection` (the empty text without that header)
  -- is some parts with commas between them: no header passes whose name, in whatever case, is one
  -- of the 21 names of a hop, of credentials or an account, and of the host, or one of those parts
  -- without the white space around it; and every other header keeps its value.
  pub find-transport_headers :
      (name : String)
      → (IsDropped (first ∷ parts) name → find (transport_headers headers) name ≡ none)
        × (¬ IsDropped (first ∷ parts) name
            → find (transport_headers headers) name ≡ find headers name)
  unfolding transport_headers
  find-transport_headers name = (
    λ dropped. ground (
      arith,
      find-drop_keys (is_excluded headers) headers name,
      IsDropped-is_excluded name dropped,
    ),
    λ kept. ground (arith, find-drop_keys (is_excluded headers) headers name, passes kept),
  )
    where
      passes : ¬ IsDropped (first ∷ parts) name → is_excluded headers name ≡ false
      passes kept = elim (Bool-cases (is_excluded headers name)) [
        | inl excluded ↦ absurd (kept (is_excluded-IsDropped name excluded))
        | inr passed ↦ passed
      ]

-- A body is read whole exactly where all its chunks together are within the limit, whatever the
-- chunks; else it is refused as too large.
pub read_body-joined :
    (limit : ℕ) (chunks : List (List ℕ))
    → read_body limit chunks ≡ (
        if leb (length (joined chunks)) limit then ok (joined chunks) else throw (bridge too_large))
unfolding read_body
read_body-joined limit chunks = read_all-joined (throw (bridge too_large)) ok limit chunks
