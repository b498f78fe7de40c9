-- ===== src/Runtime/Laws.antt =====
-- src/runtime.mjs: what the child's environment holds, and the bounds of the options.
use codex_official_bridge.Prelude.{
  ℕ, ◌≤◌, String, ◌≡◌, ◌≢◌, ◌⊎◌, sym, refl, ap, true, Bool, not, ◌&&◌, List, [], ◌∷◌, ◌⊕◌, Among,
  includes, includes-Among, Among-includes, unequal-texts, Option-cases, false, Option, none, some,
  ◌==◌, ◌||◌, ltb, arith, Bool-cases, inl, inr, eq_iff, if◌then◌else◌, if_cases,
}
use codex_official_bridge.Text.{strip_prefix}
use codex_official_bridge.Text.Laws.{strip_prefix_sound, strip_prefix-append}
use codex_official_bridge.Protocol.Error.{Thrown, Result, ok, throw}
use codex_official_bridge.Protocol.Valid.{Gives, Gives-ok, Gives-throw, Gives-then, Gives-bind}
use codex_official_bridge.Assoc.{find, put}
use codex_official_bridge.Assoc.Laws.{find-drop_keys, find-put}
use codex_official_bridge.Runtime.{
  Env, starts_with, is_withheld, codex_environment, integer, Options, runtime_options,
}

home_kept : is_withheld "CODEX_HOME" ≡ false
unfolding is_withheld strip_prefix
home_kept = refl

environment_key :
    (codex_home : String) (source : Env) (key : String)
    → find (codex_environment codex_home source) key ≡ (
        if "CODEX_HOME" == key
        then some codex_home
        else if is_withheld key
        then none
        else find source key)
unfolding codex_environment
environment_key codex_home source key =
    let dropped = find-drop_keys is_withheld (put source "CODEX_HOME" codex_home) key in
    let there = find-put source "CODEX_HOME" key codex_home in
    elim (Bool-cases ("CODEX_HOME" == key)) [
      | inl home ↦ ground (
        arith,
        dropped,
        there,
        home,
        home_kept,
        ap is_withheld ((eq_iff "CODEX_HOME" key).0 home),
      )
      | inr other ↦ ground (arith, dropped, there, other)
    ]

-- The keys of other providers.
abbrev providers : List String
providers =
    "OPENAI_API_KEY" ∷ "OPENAI_BASE_URL" ∷ "OPENAI_ORG_ID" ∷ "OPENAI_PROJECT_ID"
    ∷ "CHATGPT_BASE_URL" ∷ "CODEX_API_BASE_URL" ∷ []

abbrev kept_codex : List String
kept_codex = "CODEX_HOME" ∷ "CODEX_CA_CERTIFICATE" ∷ []

-- A key that no child may get: of the bridge, of the parent's Codex but for two, or of another
-- provider.
abbrev pub IsSecret : String → Type 0
IsSecret key =
    ((rest : String) × (key ≡ "BRIDGE_" ⊕ rest))
    ⊎ (((rest : String) × (key ≡ "CODEX_" ⊕ rest))
        × (key ≢ "CODEX_HOME")
        × (key ≢ "CODEX_CA_CERTIFICATE"))
    ⊎ Among key providers

starts_with-prefix :
    (prefix key : String) → starts_with prefix key ≡ true → (rest : String) × (key ≡ prefix ⊕ rest)
starts_with-prefix prefix key e = elim (Option-cases (strip_prefix prefix key)) [
  | inl absent ↦ cc (rw (starts_with, absent) at e)
  | inr (rest, found) ↦ (rest, strip_prefix_sound prefix key rest found)
]

prefix-starts_with : (prefix rest : String) → starts_with prefix (prefix ⊕ rest) ≡ true
prefix-starts_with prefix rest = rw (starts_with, strip_prefix-append prefix rest) refl

codex_part :
    (bridge codex kept provider : Bool)
    → bridge ≡ false
    → provider ≡ false
    → (bridge || (codex && not kept) || provider) ≡ true
    → (codex ≡ true) × (kept ≡ false)
codex_part bridge codex kept provider b p e = (ground arith, ground arith)

is_withheld-IsSecret : (key : String) → is_withheld key ≡ true → IsSecret key
unfolding is_withheld
is_withheld-IsSecret key e = elim (Bool-cases (starts_with "BRIDGE_" key)) [
  | inl bridge ↦ inl (starts_with-prefix "BRIDGE_" key bridge)
  | inr other ↦ elim (Bool-cases (includes providers key)) [
    | inl provider ↦ inr (inr (includes-Among providers key provider))
    | inr no_provider ↦
        let (codex, kept) =
          codex_part (starts_with "BRIDGE_" key) (starts_with "CODEX_" key)
            (includes kept_codex key) (includes providers key) other no_provider e in
        inr (
          inl (
            starts_with-prefix "CODEX_" key codex,
            λ home. cc (kept, Among-includes kept_codex key (inl (sym home))),
            λ certificate. cc (kept, Among-includes kept_codex key (inr (inl (sym certificate)))),
          ))
  ]
]

IsSecret-is_withheld : (key : String) → IsSecret key → is_withheld key ≡ true
unfolding is_withheld
IsSecret-is_withheld key (inl (rest, e)) =
    ground (arith, ap (starts_with "BRIDGE_") e, prefix-starts_with "BRIDGE_" rest)
IsSecret-is_withheld key (inr (inl ((rest, e), not_home, not_certificate))) = ground (
  arith,
  ap (starts_with "CODEX_") e,
  prefix-starts_with "CODEX_" rest,
  unequal-texts "CODEX_HOME" key not_home,
  unequal-texts "CODEX_CA_CERTIFICATE" key not_certificate,
)
IsSecret-is_withheld key (inr (inr h)) = ground (arith, Among-includes providers key h)

plain_kept : (key : String) → ¬ IsSecret key → is_withheld key ≡ false
plain_kept key plain = elim (Bool-cases (is_withheld key)) [
  | inl withheld ↦ absurd (plain (is_withheld-IsSecret key withheld))
  | inr kept ↦ kept
]

secret_absent :
    (codex_home : String) (source : Env) (key : String)
    → IsSecret key
    → find (codex_environment codex_home source) key ≡ none
secret_absent codex_home source key secret = elim (Bool-cases ("CODEX_HOME" == key)) [
  | inl home ↦ cc (
    home_kept,
    ap is_withheld ((eq_iff "CODEX_HOME" key).0 home),
    IsSecret-is_withheld key secret,
  )
  | inr other ↦
      ground (arith, environment_key codex_home source key, other, IsSecret-is_withheld key secret)
]

-- The child's environment, for every source and every home: `CODEX_HOME` is the given home. A key
-- that begins with `BRIDGE_`, one that begins with `CODEX_` and is neither `CODEX_HOME` nor
-- `CODEX_CA_CERTIFICATE`, and the six keys of other providers are absent. Every other key has the
-- value of the source, or none where the source has none.
pub find-codex_environment :
    (codex_home : String) (source : Env)
    → let env = codex_environment codex_home source in
      (find env "CODEX_HOME" ≡ some codex_home)
      × ((key : String) → IsSecret key → find env key ≡ none)
      × ((key : String) → key ≢ "CODEX_HOME" → ¬ IsSecret key → find env key ≡ find source key)
find-codex_environment codex_home source = (
  environment_key codex_home source "CODEX_HOME",
  λ key secret. secret_absent codex_home source key secret,
  λ key other plain. ground (
    arith,
    environment_key codex_home source key,
    unequal-texts "CODEX_HOME" key other,
    plain_kept key plain,
  ),
)

abbrev InRange : ℕ → ℕ → ℕ → Type 0
InRange min max n = (min ≤ n) × (n ≤ max)

module _ (number : String → Option ℕ) where
  integer-InRange :
      (text : Option String) (fallback min max : ℕ)
      → InRange min max fallback
      → Gives (InRange min max) (integer number text fallback min max)
  unfolding integer
  integer-InRange none fallback min max h = Gives-ok _ _ h
  integer-InRange (some text) fallback min max h = parsed (number text)
    where
      parsed :
          (o : Option ℕ)
          → Gives (InRange min max) (elim o as (λ _. Result ℕ) [
            | none ↦ throw Thrown.other
            | some n ↦ if ltb n min || ltb max n then throw Thrown.other else ok n
          ])
      parsed none = Gives-throw _ _
      parsed (some n) =
          if_cases (Gives (InRange min max)) (ltb n min || ltb max n) _ _ (λ out. Gives-throw _ _)
            (λ inside. Gives-ok _ _ (ground arith, ground arith))

  pub record IsBounded (o : Options number) : Type 0 where
    pub port : InRange 1 65535 o.port
    pub startup : InRange 1000 600000 o.startup_timeout_ms
    pub timeout : InRange 1000 600000 o.request_timeout_ms
    pub ttl : InRange 1000 3600000 o.session_ttl_ms

  runtime_options-Gives : (env : Env) → Gives IsBounded (runtime_options number env)
  unfolding runtime_options
  runtime_options-Gives env = Gives-then _ _ _ λ u.
      Gives-bind (InRange 1000 600000) _ _ _ (integer-InRange _ _ _ _ (omega arith, omega arith))
        λ startup a.
          Gives-bind (InRange 1 65535) _ _ _ (integer-InRange _ _ _ _ (omega arith, omega arith))
            λ port b.
              Gives-bind (InRange 1000 600000) _ _ _
                (integer-InRange _ _ _ _ (omega arith, omega arith))
                λ timeout c.
                  Gives-bind (InRange 1000 3600000) _ _ _
                    (integer-InRange _ _ _ _ (omega arith, omega arith))
                    λ ttl d. Gives-ok _ _ (record { port = b; startup = a; timeout = c; ttl = d })

  -- Options that are read without an error are within their bounds, whatever the environment: a
  -- port between 1 and 65535, and timeouts that are positive and at most ten minutes or an hour.
  pub runtime_options-IsBounded :
      (env : Env) (o : Options number) → runtime_options number env ≡ ok o → IsBounded o
  runtime_options-IsBounded env o e = (runtime_options-Gives env).at o e
