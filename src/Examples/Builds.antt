-- ===== src/Examples/Builds.antt =====
-- Concrete runs of scripts/build-native-runtime.mjs.
use codex_official_bridge.Prelude.{
  ◌≡◌, refl, String, true, false, Option, none, some, List, [], ◌∷◌, ◌==◌, ◌⊕◌, includes,
  if◌then◌else◌,
}
use codex_official_bridge.Codes.{Codes, codes}
use codex_official_bridge.Action.{try_catch, ◌>>=◌}
use codex_official_bridge.Build.{
  check, free_space, existing, source_status, finally, Call, removes, renames, Executed, World,
  Settings, there, source_commit,
}
use codex_official_bridge.Build.Toolchain.{rust_toolchain}
use codex_official_bridge.Build.Stages.{
  preflight, vendor_conflicts, has_problems, prepare_source, build, main,
}
use codex_official_bridge.Build.Logged.{Guarded}
use codex_official_bridge.Build.Guarded.{Allowed}
use codex_official_bridge.Build.Script.{new, OnlyLooks, main-IsGuarded}

abbrev ends_with : Codes → Option Executed
ends_with output = some (record { code = some 0; output = output })

-- Rust stands there without rustup.
abbrev programs : String → List String → Option Executed
programs program args =
    if program == "rustup"
    then some (record { code = none; output = [] })
    else if program == "rustc"
    then ends_with (codes "rustc 1.95.0 (x)")
    else if program == "cargo"
    then ends_with (codes "cargo 1.95.0 (x)")
    else if includes args "rev-parse"
    then ends_with source_commit
    else if includes args "--version"
    then ends_with (codes "git version 2.50.1")
    else ends_with []

abbrev ready_world : World
ready_world = record {
  found = λ calls path. there;
  free_bytes = λ calls path. some 10000000000;
  execute = λ calls stage program args. programs program args;
  real_path = λ calls path. some path;
  contents = λ calls path. some [];
  is_file = λ calls path. some true;
  changes = λ calls call. true;
  uuid = λ calls. "u";
  interrupted = λ calls. false;
}

abbrev joined : List String → String
joined [] = ""
joined (part ∷ parts) = part ⊕ "/" ⊕ joined parts

abbrev settings : Settings
settings = record {
  runtime = "/p/.runtime";
  ancestors = "/p" ∷ "/" ∷ [];
  vendor = "/p/.runtime/vendor/codex";
  manifest = "/p/native-runtime/Cargo.toml";
  lockfile = "/p/native-runtime/Cargo.lock";
  target = "/p/.runtime/native-target";
  built = "/p/.runtime/native-target/release/codex-official-runtime";
  destination = "/p/.runtime/bin/codex-official-runtime";
  source = "/p/.runtime/vendor/codex";
  source_was_explicit = false;
  is_windows = false;
  dev_null = "/dev/null";
  join = joined;
  dirname = λ path. path;
}

abbrev newest : List Call → List Call
newest (c ∷ d ∷ calls) = c ∷ d ∷ []
newest calls = calls

-- The build goes through, to the destination.
built_run :
    ((main ready_world settings [] new).1.exit_code ≡ 0)
    × (newest (main ready_world settings [] new).1.calls
        ≡ removes "/p/.runtime/bin/codex-official-runtime.new-u"
          ∷ renames "/p/.runtime/bin/codex-official-runtime.new-u"
              "/p/.runtime/bin/codex-official-runtime"
          ∷ [])
unfolding main new try_catch ◌>>=◌ check preflight free_space existing rust_toolchain
    codex_official_bridge.Text.is_space source_status vendor_conflicts has_problems prepare_source
    build finally
built_run = (refl, refl)

main-IsGuarded_example :
    Guarded (Allowed ready_world settings) (main ready_world settings [] new).1.calls
    × (includes [] "--check-only" ≡ true
        → Guarded OnlyLooks (main ready_world settings [] new).1.calls)
main-IsGuarded_example = main-IsGuarded ready_world settings []
