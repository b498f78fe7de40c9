-- ===== src/Build/Script.antt =====
-- scripts/build-native-runtime.mjs: the whole script.
use codex_official_bridge.Prelude.{
  ℕ, ◌≡◌, String, Bool, true, false, none, List, [], includes, if◌then◌else◌,
}
use codex_official_bridge.Protocol.Error.{Result, ok, throw}
use codex_official_bridge.Action.{Action, pure, recover, try_catch, ◌>>=◌}
use codex_official_bridge.Action.Triple.{
  Post, Triple, Triple-bind, Triple-if, Triple-pre, Triple-pure,
}
use codex_official_bridge.Build.{Call, World, Settings, Run, check}
use codex_official_bridge.Build.Stages.{
  Report, has_problems, after_checks, known_args, preflight, attempt, main, exit,
}
use codex_official_bridge.Build.Logged.{IsQuiet, Guarded, Known, Done}
use codex_official_bridge.Build.Checked.{preflight-Looks}
use codex_official_bridge.Build.Building.{build-Safe}
use codex_official_bridge.Build.Guarded.{Allowed, allowed, Safe, Holds, prepare_source-Safe}

unfoldable pub new : Run
new = record { calls = []; failure = none; exit_code = 0 }

-- Calls that only look, of which nothing else is demanded.
abbrev pub OnlyLooks : Call → List Call → Type 0
OnlyLooks c before = IsQuiet c

module _ (world : World) (settings : Settings) where
  module _ (Guard : Call → List Call → Type 0)
      (looks : (c : Call) (before : List Call) → IsQuiet c → Guard c before) where
    abbrev Good : Run → Type 0
    Good = Done world settings Guard looks

    preflight-Good :
        {A : Type 0} (f : Report → Action Run A)
        → ((r : Report) → Triple Good (f r) (λ _. Good) Good)
        → Triple Good (preflight world settings >>= f) (λ _. Good) Good
    preflight-Good f kf =
        Triple-bind (λ _. Known world settings Guard looks (λ _. Unit)) (λ _. Good) _ _
          (Triple-pre Good (Known world settings Guard looks (λ _. Unit)) _ _ (λ s h. (h, tt))
            (preflight-Looks world settings Guard looks (λ _. Unit)
              (record { lasts = λ c before h. tt })))
          (λ r. Triple-pre _ Good _ _ (λ s h. h.0) (kf r))

    check-Good : (b : Bool) (code : String) → Triple Good (check b code) (λ _. Good) Good
    unfolding check ◌>>=◌
    check-Good true code = record { at = λ s h. h }
    check-Good false code = record { at = λ s h. h }

    -- The script is as good as what comes behind its checks.
    main-Good :
        (args : List String)
        → ((r : Report)
            → Triple Good
                (after_checks world settings (includes args "--check-only") r)
                (λ _. Good)
                Good)
        → Good (main world settings args new).1
    unfolding main new try_catch
    main-Good args behind = caught (attempt world settings args new) (body.at new tt)
      where
        body : Triple Good (attempt world settings args) (λ _. Good) Good
        body =
            Triple-bind (λ _. Good) (λ _. Good)
              (check (known_args world settings args) "invalid_argument") _ (check-Good _ _)
              (λ _.
                Triple-if (λ _. Good) (includes args "--help") (pure tt) _ (λ _. Triple-pure tt)
                  (λ _.
                    preflight-Good (after_checks world settings (includes args "--check-only"))
                      behind))

        caught :
            (r : Result (Unit {0}) × Run)
            → Post (λ _. Good) Good r
            → Good
                (recover
                  (λ e s. exit world settings (if world.interrupted s.calls then 130 else 1) s)
                  (r.0)
                  (r.1)).1
        caught (ok a, s) h = h
        caught (throw e, s) h = h

  exit-Safe :
      (Guard : Call → List Call → Type 0)
      (looks : (c : Call) (before : List Call) → IsQuiet c → Guard c before) (n : ℕ)
      → Triple (Good Guard looks) (exit world settings n) (λ _. Good Guard looks) (Good Guard looks)
  exit-Safe Guard looks n = record { at = λ s h. h }

  -- Whatever the file system and the programs answer at any time: in the log of the whole script a
  -- compilation stands behind a measure of at least 8 GiB and behind the answers of Git that name
  -- the pinned commit in the vendor directory and no change in it; a directory is renamed to the
  -- vendor directory behind such answers for it, and a file to the destination behind a compilation
  -- that ended well; and with `--check-only` there are only calls that look.
  pub main-IsGuarded :
      (args : List String)
      → Guarded (Allowed world settings) (main world settings args new).1.calls
        × (includes args "--check-only" ≡ true
            → Guarded OnlyLooks (main world settings args new).1.calls)
  main-IsGuarded args = (
    main-Good (Allowed world settings) (allowed world settings) args (λ r.
        Triple-if (λ _. Safe world settings) (has_problems world settings r) _ _
          (λ _. exit-Safe (Allowed world settings) (allowed world settings) 1)
          (λ _.
            Triple-if (λ _. Safe world settings) (includes args "--check-only") _ _
              (λ _. Triple-pure tt)
              (λ _.
                Triple-bind (λ _. Safe world settings) (λ _. Safe world settings) _ _
                  (Triple-pre _ (Holds world settings (λ _. Unit)) _ _ (λ s h. (h, tt))
                    (prepare_source-Safe world settings))
                  (λ _. build-Safe world settings r.rust)))),
    λ only.
        main-Good OnlyLooks (λ c before h. h) args
          (λ r.
            Triple-if (λ _. Good OnlyLooks (λ c before h. h)) (has_problems world settings r) _ _
              (λ _. exit-Safe OnlyLooks (λ c before h. h) 1)
              (λ _.
                Triple-if (λ _. Good OnlyLooks (λ c before h. h)) (includes args "--check-only") _ _
                  (λ _. Triple-pure tt) (λ e. absurd (cc)))),
  )
