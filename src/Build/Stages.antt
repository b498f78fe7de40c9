-- ===== src/Build/Stages.antt =====
-- scripts/build-native-runtime.mjs: the checks, the download, the build, and the whole script.
use codex_official_bridge.Prelude.{
  ℕ, String, Bool, true, false, not, ◌&&◌, ◌||◌, List, [], ◌∷◌, ◌++◌, ◌==◌, ◌⊕◌, includes, nat_eq,
  if◌then◌else◌,
}
use codex_official_bridge.Protocol.Error.{other}
use codex_official_bridge.Codes.{Codes, codes, starts_with}
use codex_official_bridge.Action.{Action, pure, raise, gets, modify, when, try_catch, ◌>>=◌}
use codex_official_bridge.Build.{
  quiet, source_download, native_compilation, makes_directory, resolves, links, renames, removes,
  copies, reads, stats, changes_mode, Executed, World, Settings, Run, source_tag, source_url,
  binary_name, check, answered, finally, succeeded, Status, unverified, absent, is_verified, Rust,
  ready, unready, is_ready, change, exists, execute, git, git_args, source_status, free_space,
}
use codex_official_bridge.Build.Toolchain.{is_git, rust_toolchain}

-- `replaceAll('\r\n', '\n')`.
abbrev pub without_returns : Codes → Codes
without_returns [] = []
without_returns (c ∷ cs) =
    let rest = without_returns cs in
    if nat_eq c 13 && starts_with cs (10 ∷ []) then rest else c ∷ rest

-- The entry of the package, at the start of a line.
abbrev pub package_entry : Codes
package_entry = codes "[[package]]" ++ 10 ∷ codes "name = \"codex-native-runtime\"" ++ 10 ∷ []

abbrev pub behind_break : Codes → Bool
behind_break [] = false
behind_break (c ∷ cs) = (nat_eq c 10 && starts_with cs package_entry) || behind_break cs

abbrev pub is_lock_ready : Codes → Bool
is_lock_ready text = starts_with text package_entry || behind_break text

abbrev pub lock_arg : Bool → List String
lock_arg is_locked = if is_locked then "--locked" ∷ [] else []

-- What the checks found, as far as it decides about the build.
pub record Report : Type 0 where
  pub sufficient : Bool
  pub git_ready : Bool
  pub rust : Rust
  pub source : Status
  pub manifest : Bool
  pub conflicts : Bool

abbrev pub is_absent : Status → Bool
is_absent absent = true
is_absent _ = false

module _ (world : World) (settings : Settings) where
  abbrev pub real_path : String → Action Run String
  real_path path = answered (λ calls. world.real_path calls path) (resolves path)

  abbrev pub differ : Action Run Bool
  differ = real_path settings.vendor >>= λ vendor.
      real_path settings.source >>= λ source. pure (not (vendor == source))

  -- `sourceWasExplicit && await exists(VENDOR) && ...`.
  unfoldable pub vendor_conflicts : Action Run Bool
  vendor_conflicts =
      if not settings.source_was_explicit
      then pure false
      else exists world settings.vendor >>= λ v.
          if not v
          then pure false
          else exists world settings.source >>= λ s. if not s then pure false else differ

  abbrev pub checked_source : Bool → Action Run Status
  checked_source git_ready =
      if git_ready
      then source_status world settings settings.source
      else pure (unverified "unchecked_without_git")

  unfoldable pub preflight : Action Run Report
  preflight = free_space world settings >>= λ sufficient.
      execute world quiet "git" (git_args world settings ("--version" ∷ [])) >>= λ version.
      rust_toolchain world >>= λ rust. checked_source (is_git version) >>= λ source.
      exists world settings.manifest >>= λ manifest. vendor_conflicts >>= λ conflicts.
      pure (record {
        sufficient = sufficient;
        git_ready = is_git version;
        rust = rust;
        source = source;
        manifest = manifest;
        conflicts = conflicts;
      })

  -- `problems.length`, as a test.
  unfoldable pub has_problems : Report → Bool
  has_problems r =
      not r.sufficient
      || not r.git_ready
      || not (is_ready r.rust)
      || not (is_verified r.source || (is_absent r.source && not settings.source_was_explicit))
      || not r.manifest
      || r.conflicts

  abbrev pub link_source : Bool → Action Run (Unit {0})
  link_source there =
      if there
      then pure tt
      else real_path settings.source >>= λ source. change world (links source settings.vendor)

  -- The body of the `try` in `prepareSource`.
  abbrev pub download : (staging : String) → Action Run (Unit {0})
  download staging =
      git world settings source_download (
        "clone" ∷ "--depth" ∷ "1" ∷ "--branch" ∷ source_tag ∷ "--single-branch" ∷ source_url
        ∷ staging ∷ [])
      >>= λ clone. check (succeeded clone) "source_download_failed" >>= λ _.
          source_status world settings staging >>= λ status.
          check (is_verified status) "source_verification_failed" >>= λ _.
          change world (renames staging settings.vendor)

  abbrev pub download_source : Bool → Action Run (Unit {0})
  download_source there =
      if there
      then pure tt
      else gets (λ s.
        settings.join
          (settings.dirname settings.vendor ∷ (".codex-download-" ⊕ world.uuid s.calls) ∷ []))
        >>= λ staging. finally (download staging) (change world (removes staging))

  unfoldable pub prepare_source : Action Run (Unit {0})
  prepare_source = change world (makes_directory (settings.dirname settings.vendor)) >>= λ _.
      if settings.source_was_explicit
      then exists world settings.vendor >>= link_source
      else exists world settings.vendor >>= download_source

  abbrev pub seed_lock : Bool → Action Run (Unit {0})
  seed_lock there =
      if there
      then pure tt
      else change world (
          copies (settings.join (settings.vendor ∷ "codex-rs" ∷ "Cargo.lock" ∷ []))
            settings.lockfile)

  abbrev pub cargo_args : List String → Bool → List String
  cargo_args args is_locked =
      args
      ++ "build"
        ∷ "--release"
        ∷ (lock_arg is_locked
            ++ "--manifest-path" ∷ settings.manifest ∷ "--target-dir" ∷ settings.target ∷ "--bin"
              ∷ binary_name ∷ [])

  -- The body of the last `try` in `build`.
  abbrev pub install : (staging : String) → Action Run (Unit {0})
  install staging = change world (copies settings.built staging) >>= λ _.
      when (not settings.is_windows) (change world (changes_mode staging)) >>= λ _.
      change world (renames staging settings.destination)

  abbrev pub compile : Rust → Bool → Action Run Executed
  compile (ready command args) is_locked =
      execute world native_compilation command (cargo_args args is_locked)
  compile (unready status) is_locked = raise other

  -- `build`, from the call of Cargo on.
  abbrev pub compile_and_install : Rust → Bool → Action Run (Unit {0})
  compile_and_install rust is_locked = compile rust is_locked >>= λ result.
      check (succeeded result) "native_build_failed" >>= λ _.
      answered (λ calls. world.is_file calls settings.built) (stats settings.built) >>= λ is_file.
      check is_file "missing_binary" >>= λ _.
      change world (makes_directory (settings.dirname settings.destination)) >>= λ _.
      gets (λ s. settings.destination ⊕ ".new-" ⊕ world.uuid s.calls) >>= λ staging.
      finally (install staging) (change world (removes staging))

  unfoldable pub build : Rust → Action Run (Unit {0})
  build rust = free_space world settings >>= λ sufficient.
      check sufficient "insufficient_disk" >>= λ _.
      source_status world settings settings.vendor >>= λ status.
      check (is_verified status) "source_verification_failed" >>= λ _.
      exists world settings.lockfile >>= seed_lock >>= λ _.
      answered (λ calls. world.contents calls settings.lockfile) (reads settings.lockfile)
      >>= λ text. compile_and_install rust (is_lock_ready (without_returns text))

  abbrev pub exit : ℕ → Action Run (Unit {0})
  exit n = modify (λ s. record s { exit_code = n })

  abbrev pub after_checks : (check_only : Bool) → Report → Action Run (Unit {0})
  after_checks check_only report =
      if has_problems report
      then exit 1
      else if check_only
      then pure tt
      else prepare_source >>= λ _. build report.rust

  abbrev pub known_args : List String → Bool
  known_args [] = true
  known_args (arg ∷ args) = includes ("--check-only" ∷ "--help" ∷ []) arg && known_args args

  -- The body of the last `try` of the script.
  abbrev pub attempt : (args : List String) → Action Run (Unit {0})
  attempt args = check (known_args args) "invalid_argument" >>= λ _.
      if includes args "--help"
      then pure tt
      else preflight >>= after_checks (includes args "--check-only")

  unfoldable pub main : (args : List String) → Action Run (Unit {0})
  main args =
      try_catch (attempt args) (λ e s. exit (if world.interrupted s.calls then 130 else 1) s)
