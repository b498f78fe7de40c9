-- ===== src/Build/Toolchain.antt =====
-- scripts/build-native-runtime.mjs: the versions of Git and Rust.
use codex_official_bridge.Prelude.{
  ℕ, leb, String, Bool, true, false, not, ◌&&◌, ◌||◌, [], ◌∷◌, ◌⊕◌, nat_eq, if◌then◌else◌,
}
use codex_official_bridge.Codes.{Codes, codes, same_codes, trim, split, starts_with, drop}
use codex_official_bridge.Action.{Action, pure, ◌>>=◌}
use codex_official_bridge.Build.{
  quiet, Executed, World, Run, rust_version, some_of, succeeded, Rust, ready, unready, execute,
}

-- `startsWith` of a version behind a name.
abbrev pub has_version : String → Codes → Bool
has_version name output = starts_with output (codes (name ⊕ rust_version ⊕ " "))

-- A line of `rustup toolchain list`.
abbrev pub is_pinned : Codes → Bool
is_pinned line =
    starts_with line (codes (rust_version ⊕ "-"))
    || starts_with line (codes (rust_version ⊕ " "))
    || same_codes (trim line) (codes rust_version)

-- `/^git version [\w.+-]+/`: a character of a version behind the words.
abbrev pub is_word : ℕ → Bool
is_word c =
    (leb 48 c && leb c 57)
    || (leb 65 c && leb c 90)
    || (leb 97 c && leb c 122)
    || nat_eq c 95
    || nat_eq c 46
    || nat_eq c 43
    || nat_eq c 45

abbrev pub begins_word : Codes → Bool
begins_word [] = false
begins_word (c ∷ cs) = is_word c

abbrev pub is_git : Executed → Bool
is_git e =
    succeeded e
    && starts_with (trim e.output) (codes "git version ")
    && begins_word (drop 12 (trim e.output))

module _ (world : World) where
  abbrev pub versions : (succeed : Bool) → Executed → Executed → Rust → Rust
  versions succeed rustc cargo rust =
      if succeed && has_version "rustc " rustc.output && has_version "cargo " cargo.output
      then rust
      else unready "invalid_required_toolchain"

  -- Both programs are asked for their versions.
  abbrev pub ask_versions : (rustup : Bool) → (Executed → Executed → Rust) → Action Run Rust
  ask_versions true decide =
      execute world quiet "rustup" ("run" ∷ rust_version ∷ "rustc" ∷ "--version" ∷ []) >>= λ rustc.
      execute world quiet "rustup" ("run" ∷ rust_version ∷ "cargo" ∷ "--version" ∷ []) >>= λ cargo.
      pure (decide rustc cargo)
  ask_versions false decide = execute world quiet "rustc" ("--version" ∷ []) >>= λ rustc.
      execute world quiet "cargo" ("--version" ∷ []) >>= λ cargo. pure (decide rustc cargo)

  abbrev pub pinned_rust : Executed → Executed → Rust
  pinned_rust rustc cargo =
      versions (succeeded rustc && succeeded cargo) rustc cargo
        (ready "rustup" ("run" ∷ rust_version ∷ "cargo" ∷ []))

  abbrev pub plain_rust : Executed → Executed → Rust
  plain_rust rustc cargo =
      if not (succeeded rustc && succeeded cargo)
      then unready "rust_not_installed"
      else if not (has_version "rustc " rustc.output && has_version "cargo " cargo.output)
      then unready "wrong_rust_version"
      else ready "cargo" []

  abbrev pub installed_rust : Executed → Action Run Rust
  installed_rust installed =
      if not (succeeded installed && some_of is_pinned (split 10 installed.output))
      then pure (unready "missing_required_toolchain")
      else ask_versions true pinned_rust

  unfoldable pub rust_toolchain : Action Run Rust
  rust_toolchain = execute world quiet "rustup" ("--version" ∷ []) >>= λ rustup.
      if succeeded rustup
      then execute world quiet "rustup" ("toolchain" ∷ "list" ∷ []) >>= installed_rust
      else ask_versions false plain_rust
