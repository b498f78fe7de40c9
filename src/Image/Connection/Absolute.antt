-- ===== src/Image/Connection/Absolute.antt =====
-- scripts/desktop-image-mcp.mjs, `parseOptions`: the paths that it takes.
use codex_official_bridge.Prelude.{
  String, ◌≡◌, Bool, true, false, not, not-false, ◌||◌, Option, none, some, List, [], ◌∷◌, ◌==◌,
  includes, All, All-append, if_cases, if_both,
}
use codex_official_bridge.Image.{Failure, other}
use codex_official_bridge.Image.Verdict.{Verdict, Verdict-done, Verdict-error}
use codex_official_bridge.Image.Connection.{Options, set_option, parse_options}

-- The plain error that the start-up reports.
abbrev pub IsPlain : Failure → Type 0
IsPlain other = Unit
IsPlain _ = ⊥

module _ (is_absolute : String → Bool) where
  abbrev IsPath : String → Type 0
  IsPath path = is_absolute path ≡ true

  abbrev IsProfile : Option String → Type 0
  IsProfile none = Unit
  IsProfile (some path) = IsPath path

  abbrev pub IsAbsolute : Options → Type 0
  IsAbsolute options = IsProfile options.profile_path × All IsPath options.output_roots

  set_option-IsAbsolute :
      (flag value : String) (options : Options)
      → IsPath value
      → IsAbsolute options
      → IsAbsolute (set_option is_absolute flag value options)
  set_option-IsAbsolute flag value options path (profile, roots) =
      if_both IsAbsolute (flag == "--profile") _ _ (path, roots)
        (profile, All-append IsPath options.output_roots (value ∷ []) roots (path, tt))

  -- For any arguments, from options whose paths are absolute: the parser ends with its error or
  -- with options whose paths are all absolute.
  pub parse_options-IsAbsolute :
      (arguments : List String) (options : Options)
      → IsAbsolute options
      → Verdict IsPlain IsAbsolute (parse_options is_absolute arguments options)
  unfolding parse_options
  parse_options-IsAbsolute [] options h = Verdict-done IsPlain IsAbsolute options h
  parse_options-IsAbsolute (flag ∷ []) options h = Verdict-error IsPlain IsAbsolute other tt
  parse_options-IsAbsolute (flag ∷ value ∷ rest) options h =
      if_cases (Verdict IsPlain IsAbsolute)
        (not (includes ("--profile" ∷ "--output-root" ∷ []) flag)
          || (value == "")
          || not (is_absolute value))
        _ _ (λ wrong. Verdict-error IsPlain IsAbsolute other tt)
        λ right.
          parse_options-IsAbsolute rest (set_option is_absolute flag value options)
            (set_option-IsAbsolute flag value options (path _ right) h)
    where
      path : (b : Bool) → (b || not (is_absolute value)) ≡ false → is_absolute value ≡ true
      path true e = cc
      path false e = not-false (is_absolute value) e
