-- ===== src/Build/Checked.antt =====
-- scripts/build-native-runtime.mjs: `preflight` only looks.
use codex_official_bridge.Prelude.{String, Bool, true, false, not, List, [], ◌∷◌}
use codex_official_bridge.Action.{Action, ◌>>=◌}
use codex_official_bridge.Action.Triple.{Triple, Triple-bind, Triple-if, Triple-post, Triple-pure}
use codex_official_bridge.Build.{
  quiet, Call, accesses, resolves, runs, Executed, World, Settings, Run, Rust, unready, succeeded,
  exists, execute, git_args,
}
use codex_official_bridge.Build.Toolchain.{
  is_git, rust_toolchain, ask_versions, plain_rust, pinned_rust,
}
use codex_official_bridge.Build.Stages.{real_path, vendor_conflicts, checked_source, preflight}
use codex_official_bridge.Build.Logged.{
  IsQuiet, Lasting, Known, Done, look, free_space-Known, source_status-Known,
}

module _ (world : World) (settings : Settings) (Guard : Call → List Call → Type 0)
    (looks : (c : Call) (before : List Call) → IsQuiet c → Guard c before) (K : List Call → Type 0)
    (k : Lasting world settings Guard looks K) where
  -- An action that only looks.
  abbrev Looks : {A : Type 0} → Action Run A → Type 0
  Looks m =
      Triple (Known world settings Guard looks K) m (λ _. Known world settings Guard looks K)
        (Done world settings Guard looks)

  both :
      {A B : Type 0} (m : Action Run A) (f : A → Action Run B)
      → Looks m
      → ((a : A) → Looks (f a))
      → Looks (m >>= f)
  both m f km kf =
      Triple-bind (λ _. Known world settings Guard looks K)
        (λ _. Known world settings Guard looks K) m f km kf

  runs-Looks : (program : String) (args : List String) → Looks (execute world quiet program args)
  runs-Looks program args = look world settings Guard looks K k _ (runs quiet program args) tt

  exists-Looks : (path : String) → Looks (exists world path)
  exists-Looks path = look world settings Guard looks K k _ (accesses path) tt

  ask_versions-Looks :
      (rustup : Bool) (decide : Executed → Executed → Rust)
      → Looks (ask_versions world rustup decide)
  ask_versions-Looks true decide =
      both _ _ (runs-Looks _ _) (λ rustc. both _ _ (runs-Looks _ _) (λ cargo. Triple-pure _))
  ask_versions-Looks false decide =
      both _ _ (runs-Looks _ _) (λ rustc. both _ _ (runs-Looks _ _) (λ cargo. Triple-pure _))

  rust_toolchain-Looks : Looks (rust_toolchain world)
  unfolding rust_toolchain
  rust_toolchain-Looks = both _ _ (runs-Looks _ _) (λ rustup.
      Triple-if (λ _. Known world settings Guard looks K) (succeeded rustup) _ _
        (λ _. both _ _ (runs-Looks _ _) (λ installed.
          Triple-if (λ _. Known world settings Guard looks K) _ _ _
            (λ _. Triple-pure (unready "missing_required_toolchain"))
            (λ _. ask_versions-Looks true (pinned_rust world))))
        (λ _. ask_versions-Looks false (plain_rust world)))

  real_path-Looks : (path : String) → Looks (real_path world settings path)
  real_path-Looks path = look world settings Guard looks K k _ (resolves path) tt

  vendor_conflicts-Looks : Looks (vendor_conflicts world settings)
  unfolding vendor_conflicts
  vendor_conflicts-Looks =
      Triple-if (λ _. Known world settings Guard looks K) (not settings.source_was_explicit) _ _
        (λ _. Triple-pure false)
        (λ _. both _ _ (exists-Looks settings.vendor) (λ v.
          Triple-if (λ _. Known world settings Guard looks K) (not v) _ _ (λ _. Triple-pure false)
            (λ _. both _ _ (exists-Looks settings.source) (λ s.
              Triple-if (λ _. Known world settings Guard looks K) (not s) _ _
                (λ _. Triple-pure false)
                (λ _. both _ _ (real_path-Looks settings.vendor) (λ vendor.
                  both _ _ (real_path-Looks settings.source) (λ source. Triple-pure _)))))))

  checked_source-Looks : (git_ready : Bool) → Looks (checked_source world settings git_ready)
  checked_source-Looks git_ready =
      Triple-if (λ _. Known world settings Guard looks K) git_ready _ _
        (λ _.
          Triple-post _ (λ _. Known world settings Guard looks K) _ (λ a s h. h.0)
            (source_status-Known world settings Guard looks K k settings.source))
        (λ _. Triple-pure _)

  pub preflight-Looks : Looks (preflight world settings)
  unfolding preflight
  preflight-Looks =
      both _ _
        (Triple-post _ (λ _. Known world settings Guard looks K) _ (λ a s h. h.0)
          (free_space-Known world settings Guard looks K k))
        (λ sufficient.
          both _ _ (runs-Looks "git" (git_args world settings ("--version" ∷ []))) (λ version.
            both _ _ rust_toolchain-Looks (λ rust.
              both _ _ (checked_source-Looks (is_git version)) (λ source.
                both _ _ (exists-Looks settings.manifest)
                  (λ manifest. both _ _ vendor_conflicts-Looks (λ conflicts. Triple-pure _))))))
