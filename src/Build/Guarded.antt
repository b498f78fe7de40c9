-- ===== src/Build/Guarded.antt =====
-- scripts/build-native-runtime.mjs: what has to stand in the log before a compilation and before
-- a directory or a program is put into its place, and that `prepareSource` meets it.
use codex_official_bridge.Prelude.{◌≡◌, refl, ◌⊎◌, inl, inr, String, Bool, true, false, List}
use codex_official_bridge.Protocol.Error.{Result, ok, throw}
use codex_official_bridge.Action.{Action, pure, ◌>>=◌}
use codex_official_bridge.Action.Triple.{
  Post, Triple, Triple-bind, Triple-if, Triple-post, Triple-pre, Triple-reads,
}
use codex_official_bridge.Build.{
  quiet, source_download, native_compilation, Call, accesses, measures, runs, makes_directory,
  resolves, links, renames, removes, copies, reads, stats, changes_mode, World, Settings, Run,
  check, finally, after_last, succeeded, is_verified, change, exists,
}
use codex_official_bridge.Build.Stages.{download, prepare_source}
use codex_official_bridge.Build.Logged.{
  IsQuiet, Saw, IsEnough, HasRun, IsPinned, Lasting, Known, Done, ask, look, source_status-Known,
}

module _ (world : World) (settings : Settings) where
  -- A compilation that ended well.
  abbrev pub IsCompiled : Call → List Call → Type 0
  IsCompiled call before =
      (program : String) × ((args : List String) × HasRun world settings native_compilation program
          args (λ _. true) call before)

  -- A compilation comes behind a measure of at least 8 GiB and behind the answers of Git for the
  -- vendor directory; a directory is renamed to the vendor directory behind the answers for it, and
  -- a file to the destination behind a compilation that ended well.
  abbrev pub Allowed : Call → List Call → Type 0
  Allowed (runs native_compilation program args) before =
      Saw (IsEnough world settings) before × IsPinned world settings settings.vendor before
  Allowed (renames from to) before =
      ((to ≡ settings.vendor) × IsPinned world settings from before)
      ⊎ ((to ≡ settings.destination) × Saw IsCompiled before)
  Allowed _ before = Unit

  pub allowed : (c : Call) (before : List Call) → IsQuiet c → Allowed c before
  allowed (runs native_compilation program args) before h = absurd h
  allowed (renames from to) before h = absurd h
  allowed (accesses path) before h = tt
  allowed (measures path) before h = tt
  allowed (runs quiet program args) before h = tt
  allowed (runs source_download program args) before h = tt
  allowed (makes_directory path) before h = tt
  allowed (resolves path) before h = tt
  allowed (links target path) before h = tt
  allowed (removes path) before h = tt
  allowed (copies from to) before h = tt
  allowed (reads path) before h = tt
  allowed (stats path) before h = tt
  allowed (changes_mode path) before h = tt

  abbrev pub Lasts : (List Call → Type 0) → Type 0
  Lasts = Lasting world settings Allowed allowed

  abbrev pub Holds : (List Call → Type 0) → Run → Type 0
  Holds = Known world settings Allowed allowed

  abbrev pub Safe : Run → Type 0
  Safe = Done world settings Allowed allowed

  abbrev pub Nothing : List Call → Type 0
  Nothing log = Unit

  pub Nothing-Lasting : Lasts Nothing
  Nothing-Lasting = record { lasts = λ c before h. tt }

  module _ (K : List Call → Type 0) (k : Lasts K) where
    -- A change that is allowed by what is known.
    pub changed :
        (call : Call)
        → ((before : List Call) → K before → Allowed call before)
        → Triple (Holds K) (change world call) (λ _. Holds K) Safe
    changed call guard =
        Triple-post (λ a s. Holds K s × Unit) (λ _. Holds K) (change world call) (λ a s h. h.0)
          (ask world settings Allowed allowed K k (λ _ _. Unit) _ call guard (λ _ _ _. tt))

    pub exists-Holds : (path : String) → Triple (Holds K) (exists world path) (λ _. Holds K) Safe
    exists-Holds path = look world settings Allowed allowed K k _ (accesses path) tt

  IsPinned-Lasting : (path : String) → Lasts (IsPinned world settings path)
  IsPinned-Lasting path = record { lasts = λ c before (h, k). (inr h, inr k) }

  Nothing-pure : Triple (Holds Nothing) (pure tt) (λ _. Safe) Safe
  Nothing-pure = record { at = λ s h. h.0 }

  pub checked :
      (P : Run → Type 0) (b : Bool) (code : String)
      → ((s : Run) → P s → Safe s)
      → Triple P (check b code) (λ _ s. P s × (b ≡ true)) Safe
  unfolding check ◌>>=◌
  checked P true code safe = record { at = λ s h. (h, refl) }
  checked P false code safe = record { at = λ s h. safe s h }

  ended :
      {A : Type 0} (r : Result A) (t : Result (Unit {0}) × Run)
      → Post {S = Run} (λ (_ : Unit {0}). Safe) Safe t
      → Post (λ _. Safe) Safe (after_last r t)
  ended (ok a) (ok _, s) h = h
  ended (throw e) (ok _, s) h = h
  ended (ok a) (throw f, s) h = h
  ended (throw e) (throw f, s) h = h

  safe_after :
      {A : Type 0} (r : Result A × Run) → Post {S = Run} (λ (_ : A). Safe) Safe r → Safe (r.1)
  safe_after (ok a, s) h = h
  safe_after (throw e, s) h = h

  pub removed :
      (P : Run → Type 0) (body : Action Run (Unit {0})) (path : String)
      → Triple P body (λ _. Safe) Safe
      → Triple P (finally body (change world (removes path))) (λ _. Safe) Safe
  unfolding finally
  removed P body path h = record {
    at = λ s p.
        let safe = safe_after (body s) (h.at s p) in
        ended ((body s).0) (change world (removes path) ((body s).1)) (
          (Triple-post (λ _. Holds Nothing) (λ _. Safe) _ (λ _ _ k. k.0)
              (changed Nothing Nothing-Lasting (removes path) (λ _ _. tt))).at
            ((body s).1) (safe, tt));
  }

  download-Safe :
      (staging : String) → Triple (Holds Nothing) (download world settings staging) (λ _. Safe) Safe
  download-Safe staging =
      Triple-bind (λ _. Holds Nothing) (λ _. Safe) _ _
        (Triple-post (λ a s. Holds Nothing s × Unit) (λ _. Holds Nothing) _ (λ a s h. h.0)
          (ask world settings Allowed allowed Nothing Nothing-Lasting (λ _ _. Unit) _ _ (λ _ _. tt)
            (λ _ _ _. tt)))
        (λ clone.
          Triple-bind (λ _. Holds Nothing) (λ _. Safe) _ _
            (Triple-post _ (λ _. Holds Nothing) _ (λ a s h. h.0)
              (checked (Holds Nothing) (succeeded clone) "source_download_failed" (λ s h. h.0)))
            (λ _.
              Triple-bind _ (λ _. Safe) _ _
                (source_status-Known world settings Allowed allowed Nothing Nothing-Lasting staging)
                (λ status.
                  Triple-bind _ (λ _. Safe) _ _
                    (checked _ (is_verified status) "source_verification_failed" (λ s h. h.0.0))
                    (λ _.
                      Triple-pre _ (Holds (IsPinned world settings staging)) _ _
                        (λ s ((h, pinned), good). (h.0, pinned good))
                        (Triple-post _ (λ _. Safe) _ (λ a s h. h.0)
                          (changed (IsPinned world settings staging) (IsPinned-Lasting staging)
                            (renames staging settings.vendor) (λ before h. inl (refl, h))))))))

  pub prepare_source-Safe : Triple (Holds Nothing) (prepare_source world settings) (λ _. Safe) Safe
  unfolding prepare_source
  prepare_source-Safe =
      Triple-bind (λ _. Holds Nothing) (λ _. Safe) _ _
        (changed Nothing Nothing-Lasting (makes_directory (settings.dirname settings.vendor))
          (λ _ _. tt))
        (λ _.
          Triple-if (λ _. Safe) settings.source_was_explicit _ _
            (λ _.
              Triple-bind (λ _. Holds Nothing) (λ _. Safe) _ _
                (exists-Holds Nothing Nothing-Lasting settings.vendor)
                (λ there.
                  Triple-if (λ _. Safe) there _ _ (λ _. Nothing-pure)
                    (λ _.
                      Triple-bind (λ _. Holds Nothing) (λ _. Safe) _ _
                        (look world settings Allowed allowed Nothing Nothing-Lasting _
                          (resolves settings.source) tt)
                        (λ source.
                          Triple-post (λ _. Holds Nothing) (λ _. Safe) _ (λ a s h. h.0)
                            (changed Nothing Nothing-Lasting (links source settings.vendor)
                              (λ _ _. tt))))))
            (λ _.
              Triple-bind (λ _. Holds Nothing) (λ _. Safe) _ _
                (exists-Holds Nothing Nothing-Lasting settings.vendor)
                (λ there.
                  Triple-if (λ _. Safe) there _ _ (λ _. Nothing-pure)
                    (λ _.
                      Triple-bind (λ _. Holds Nothing) (λ _. Safe) _ _ (Triple-reads _)
                        (λ staging.
                          removed (Holds Nothing) (download world settings staging) staging
                            (download-Safe staging))))))
