-- ===== src/Build/Building.antt =====
-- scripts/build-native-runtime.mjs: `build` keeps to what is demanded of the log.
use codex_official_bridge.Prelude.{◌≡◌, refl, inl, inr, String, Bool, true, false, not, List}
use codex_official_bridge.Action.{when}
use codex_official_bridge.Action.Triple.{
  Triple, Triple-bind, Triple-if, Triple-post, Triple-pre, Triple-pure, Triple-reads,
}
use codex_official_bridge.Build.{
  native_compilation, Call, runs, makes_directory, renames, copies, reads, stats, changes_mode,
  World, Settings, Run, succeeded, is_verified, Rust, ready, unready, change,
}
use codex_official_bridge.Build.Stages.{
  seed_lock, install, compile, compile_and_install, build, cargo_args,
}
use codex_official_bridge.Build.Logged.{
  IsQuiet, Saw, IsEnough, IsPinned, ask, look, Saw-Lasting, free_space-Known, source_status-Known,
}
use codex_official_bridge.Build.Guarded as Rules

module _ (world : World) (settings : Settings) where
  -- The rules for this run.
  abbrev Allowed : Call → List Call → Type 0
  Allowed = Rules.Allowed world settings

  abbrev allowed : (c : Call) (before : List Call) → IsQuiet c → Allowed c before
  allowed = Rules.allowed world settings

  abbrev IsCompiled : Call → List Call → Type 0
  IsCompiled = Rules.IsCompiled world settings

  abbrev Lasts : (List Call → Type 0) → Type 0
  Lasts = Rules.Lasts world settings

  abbrev Holds : (List Call → Type 0) → Run → Type 0
  Holds = Rules.Holds world settings

  abbrev Safe : Run → Type 0
  Safe = Rules.Safe world settings

  abbrev Nothing : List Call → Type 0
  Nothing = Rules.Nothing world settings

  -- Known in front of the compilation, and behind it.
  abbrev IsPrepared : List Call → Type 0
  IsPrepared log =
      (Unit × Saw (IsEnough world settings) log) × IsPinned world settings settings.vendor log

  abbrev Measured : List Call → Type 0
  Measured log = Unit × Saw (IsEnough world settings) log

  abbrev HasCompiled : List Call → Type 0
  HasCompiled log = Unit × Saw IsCompiled log

  Measured-Lasting : Lasts Measured
  Measured-Lasting =
      Saw-Lasting world settings Allowed allowed Nothing (Rules.Nothing-Lasting world settings)
        (IsEnough world settings)

  IsPrepared-Lasting : Lasts IsPrepared
  IsPrepared-Lasting = record { lasts = λ c before ((_, h), (i, j)). ((tt, inr h), (inr i, inr j)) }

  HasCompiled-Lasting : Lasts HasCompiled
  HasCompiled-Lasting =
      Saw-Lasting world settings Allowed allowed Nothing (Rules.Nothing-Lasting world settings)
        IsCompiled

  install-Safe :
      (staging : String)
      → Triple (Holds HasCompiled) (install world settings staging) (λ _. Safe) Safe
  install-Safe staging =
      Triple-bind (λ _. Holds HasCompiled) (λ _. Safe) _ _
        (Rules.changed world settings HasCompiled HasCompiled-Lasting
          (copies settings.built staging) (λ _ _. tt))
        (λ _.
          Triple-bind (λ _. Holds HasCompiled) (λ _. Safe) _ _ (mode (not settings.is_windows))
            (λ _.
              Triple-post (λ _. Holds HasCompiled) (λ _. Safe) _ (λ a s h. h.0)
                (Rules.changed world settings HasCompiled HasCompiled-Lasting
                  (renames staging settings.destination) (λ before h. inr (refl, h.1)))))
    where
      mode :
          (b : Bool)
          → Triple
              (Holds HasCompiled)
              (when b (change world (changes_mode staging)))
              (λ _. Holds HasCompiled)
              Safe
      mode true =
          Rules.changed world settings HasCompiled HasCompiled-Lasting (changes_mode staging)
            (λ _ _. tt)
      mode false = Triple-pure tt

  compile-Holds :
      (rust : Rust) (is_locked : Bool)
      → Triple
          (Holds IsPrepared)
          (compile world settings rust is_locked)
          (λ e s. Holds IsPrepared s × (succeeded e ≡ true → Saw IsCompiled s.calls))
          Safe
  compile-Holds (unready status) is_locked = record { at = λ s h. h.0 }
  compile-Holds (ready command args) is_locked =
      ask world settings Allowed allowed IsPrepared IsPrepared-Lasting
        (λ e log. succeeded e ≡ true → Saw IsCompiled log) _
        (runs native_compilation command (cargo_args world settings args is_locked))
        (λ before ((_, h), k). (h, k))
        (λ e before answer well.
          inl
            (command, (cargo_args world settings args is_locked, (refl, (e, answer, well, refl)))))

  compile_and_install-Safe :
      (rust : Rust) (is_locked : Bool)
      → Triple
          (Holds IsPrepared)
          (compile_and_install world settings rust is_locked)
          (λ _. Safe)
          Safe
  compile_and_install-Safe rust is_locked =
      Triple-bind _ (λ _. Safe) _ _ (compile-Holds rust is_locked)
        (λ result.
          Triple-bind (λ _. Holds HasCompiled) (λ _. Safe) _ _
            (Triple-post _ (λ _. Holds HasCompiled) _
              (λ a s ((h, compiled), well). (h.0, (tt, compiled well)))
              (Rules.checked world settings _ (succeeded result) "native_build_failed"
                (λ s h. h.0.0)))
            (λ _.
              Triple-bind (λ _. Holds HasCompiled) (λ _. Safe) _ _
                (look world settings Allowed allowed HasCompiled HasCompiled-Lasting _
                  (stats settings.built) tt)
                (λ is_file.
                  Triple-bind (λ _. Holds HasCompiled) (λ _. Safe) _ _
                    (Triple-post _ (λ _. Holds HasCompiled) _ (λ a s h. h.0)
                      (Rules.checked world settings (Holds HasCompiled) is_file "missing_binary"
                        (λ s h. h.0)))
                    (λ _.
                      Triple-bind (λ _. Holds HasCompiled) (λ _. Safe) _ _
                        (Rules.changed world settings HasCompiled HasCompiled-Lasting
                          (makes_directory (settings.dirname settings.destination)) (λ _ _. tt))
                        (λ _.
                          Triple-bind (λ _. Holds HasCompiled) (λ _. Safe) _ _ (Triple-reads _)
                            (λ staging.
                              Rules.removed world settings (Holds HasCompiled)
                                (install world settings staging) staging
                                (install-Safe staging)))))))

  seed_lock-Holds :
      (there : Bool)
      → Triple (Holds IsPrepared) (seed_lock world settings there) (λ _. Holds IsPrepared) Safe
  seed_lock-Holds there =
      Triple-if (λ _. Holds IsPrepared) there _ _ (λ _. Triple-pure tt)
        (λ _. Rules.changed world settings IsPrepared IsPrepared-Lasting _ (λ _ _. tt))

  pub build-Safe : (rust : Rust) → Triple Safe (build world settings rust) (λ _. Safe) Safe
  unfolding build
  build-Safe rust =
      Triple-bind _ (λ _. Safe) _ _
        (Triple-pre Safe (Holds Nothing) _ _ (λ s h. (h, tt))
          (free_space-Known world settings Allowed allowed Nothing
            (Rules.Nothing-Lasting world settings)))
        (λ sufficient.
          Triple-bind (λ _. Holds Measured) (λ _. Safe) _ _
            (Triple-post _ (λ _. Holds Measured) _
              (λ a s ((h, seen), enough). (h.0, (tt, seen enough)))
              (Rules.checked world settings _ sufficient "insufficient_disk" (λ s h. h.0.0)))
            (λ _.
              Triple-bind _ (λ _. Safe) _ _
                (source_status-Known world settings Allowed allowed Measured Measured-Lasting
                  settings.vendor)
                (λ status.
                  Triple-bind (λ _. Holds IsPrepared) (λ _. Safe) _ _
                    (Triple-post _ (λ _. Holds IsPrepared) _
                      (λ a s ((h, pinned), good). (h.0, (h.1, pinned good)))
                      (Rules.checked world settings _ (is_verified status)
                        "source_verification_failed" (λ s h. h.0.0)))
                    (λ _.
                      Triple-bind (λ _. Holds IsPrepared) (λ _. Safe) _ _
                        (Triple-bind (λ _. Holds IsPrepared) (λ _. Holds IsPrepared) _ _
                          (Rules.exists-Holds world settings IsPrepared IsPrepared-Lasting
                            settings.lockfile)
                          seed_lock-Holds)
                        (λ _.
                          Triple-bind (λ _. Holds IsPrepared) (λ _. Safe) _ _
                            (look world settings Allowed allowed IsPrepared IsPrepared-Lasting _
                              (reads settings.lockfile) tt)
                            (λ text. compile_and_install-Safe rust _))))))
