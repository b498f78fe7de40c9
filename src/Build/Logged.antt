-- ===== src/Build/Logged.antt =====
-- scripts/build-native-runtime.mjs: what its checks leave in the log, whatever is demanded of the
-- calls, as long as calls that only look are free.
use codex_official_bridge.Prelude.{
  ℕ, ◌≤◌, ◌≡◌, refl, Bool, true, not, ◌⊎◌, inl, inr, String, Option, none, some, List, [], ◌∷◌,
  not-false, ltb, arith,
}
use codex_official_bridge.Codes.{same_codes, trim}
use codex_official_bridge.Action.{pure}
use codex_official_bridge.Action.Triple.{
  Post, Triple, Triple-bind, Triple-if, Triple-post, Triple-pre, Triple-pure,
}
use codex_official_bridge.Build.{
  Stage, quiet, Call, accesses, measures, runs, resolves, reads, stats, Executed, World, Settings,
  Run, source_commit, min_free_bytes, answered, result_of, succeeded, Status, unverified,
  is_verified, execute, git_args, head_args, worktree_args, worktree_status, head_status,
  source_status, existing, free_space,
}

-- A call that only looks.
abbrev pub IsQuiet : Call → Type 0
IsQuiet (accesses path) = Unit
IsQuiet (measures path) = Unit
IsQuiet (runs quiet program args) = Unit
IsQuiet (resolves path) = Unit
IsQuiet (reads path) = Unit
IsQuiet (stats path) = Unit
IsQuiet _ = ⊥

-- A call, with those before it, is in a log.
abbrev pub Saw : (Call → List Call → Type 0) → List Call → Type 0
Saw P [] = ⊥
Saw P (c ∷ before) = P c before ⊎ Saw P before

-- Every call is as it has to be behind those before it.
abbrev pub Guarded : (Call → List Call → Type 0) → List Call → Type 0
Guarded Guard [] = Unit
Guarded Guard (c ∷ before) = Guard c before × Guarded Guard before

module _ (world : World) (settings : Settings) where
  -- At least 8 GiB are free.
  abbrev pub IsEnough : Call → List Call → Type 0
  IsEnough (measures path) before =
      (n : ℕ) × (world.free_bytes before path ≡ some n) × (min_free_bytes ≤ n)
  IsEnough _ before = ⊥

  -- A run of a program that ended well and wrote what passes a test.
  abbrev pub HasRun : Stage → String → List String → (Executed → Bool) → Call → List Call → Type 0
  HasRun stage program args test call before =
      (call ≡ runs stage program args)
      × ((e : Executed) × (world.execute before stage program args ≡ some e)
          × (succeeded e ≡ true)
          × (test e ≡ true))

  abbrev is_pinned_commit : Executed → Bool
  is_pinned_commit e = same_codes (trim e.output) source_commit

  abbrev is_silent : Executed → Bool
  is_silent e = same_codes (trim e.output) []

  -- Git named the pinned commit in a directory, and no change in it.
  abbrev pub IsPinned : String → List Call → Type 0
  IsPinned path log =
      Saw
        (HasRun quiet "git" (git_args world settings (head_args world settings path))
          is_pinned_commit)
        log
      × Saw
          (HasRun quiet "git" (git_args world settings (worktree_args world settings path))
            is_silent)
          log

  module _ (Guard : Call → List Call → Type 0)
      (looks : (c : Call) (before : List Call) → IsQuiet c → Guard c before) where
    -- A log that is as it has to be, of which something is known that more calls do not change.
    pub record Lasting (K : List Call → Type 0) : Type 0 where
      pub lasts : (c : Call) (before : List Call) → K before → K (c ∷ before)

    abbrev pub Known : (List Call → Type 0) → Run → Type 0
    Known K s = Guarded Guard s.calls × K s.calls

    abbrev pub Done : Run → Type 0
    Done s = Guarded Guard s.calls

    module _ {A : Type 0} (K : List Call → Type 0) (k : Lasting K) where
      -- A call with an answer, from which a fact follows.
      pub ask :
          (Fact : A → List Call → Type 0) (answer : List Call → Option A) (call : Call)
          → ((before : List Call) → K before → Guard call before)
          → ((a : A) (before : List Call) → answer before ≡ some a → Fact a (call ∷ before))
          → Triple (Known K) (answered answer call) (λ a s. Known K s × Fact a s.calls) Done
      ask Fact answer call guard fact = record {
        at = λ s (g, h). asked s (answer s.calls) refl g h;
      }
        where
          asked :
              (s : Run) (o : Option A)
              → answer s.calls ≡ o
              → Guarded Guard s.calls
              → K s.calls
              → Post
                  (λ a s. Known K s × Fact a s.calls)
                  Done
                  (result_of o, record s { calls = call ∷ s.calls })
          asked s (some a) e g h =
              (((guard s.calls h, g), k.lasts call s.calls h), fact a s.calls e)
          asked s none e g h = (guard s.calls h, g)

    module _ (K : List Call → Type 0) (k : Lasting K) where
      -- A call that looks, of which nothing more is known.
      pub look :
          {A : Type 0} (answer : List Call → Option A) (call : Call)
          → IsQuiet call
          → Triple (Known K) (answered answer call) (λ _. Known K) Done
      look answer call quiet_call =
          Triple-post (λ a s. Known K s × Unit) (λ _. Known K) (answered answer call) (λ a s h. h.0)
            (ask K k (λ _ _. Unit) answer call (λ before _. looks call before quiet_call)
              (λ _ _ _. tt))

      existing-Known :
          (location : String) (parents : List String)
          → Triple (Known K) (existing world settings location parents) (λ _. Known K) Done
      unfolding existing
      existing-Known location [] =
          Triple-bind (λ _. Known K) (λ _. Known K) _ _ (look _ (accesses location) tt)
            (λ b. Triple-pure location)
      existing-Known location (parent ∷ parents) =
          Triple-bind (λ _. Known K) (λ _. Known K) _ _ (look _ (accesses location) tt)
            (λ b.
              Triple-if (λ _. Known K) b _ _ (λ _. Triple-pure location)
                (λ _. existing-Known parent parents))

      enough : (b : ℕ) → not (ltb b min_free_bytes) ≡ true → min_free_bytes ≤ b
      enough b e = ground (arith, e)

      -- `freeSpace` answers yes only behind a measure of at least 8 GiB.
      pub free_space-Known :
          Triple
            (Known K)
            (free_space world settings)
            (λ b s. Known K s × (b ≡ true → Saw IsEnough s.calls))
            Done
      unfolding free_space
      free_space-Known =
          Triple-bind (λ _. Known K) _ _ _ (existing-Known settings.runtime settings.ancestors)
            (λ location.
              Triple-bind
                (λ n s. Known K s × (not (ltb n min_free_bytes) ≡ true → Saw IsEnough s.calls)) _ _
                _
                (ask K k (λ n log. not (ltb n min_free_bytes) ≡ true → Saw IsEnough log) _
                  (measures location) (λ before _. looks (measures location) before tt)
                  (λ n before e large. inl (n, e, enough n large)))
                (λ n. record { at = λ s h. h }))

      -- A program that looks is run: where it ended well and its output passes a test, the log
      -- has that.
      look_run :
          (program : String) (args : List String) (test : Executed → Bool)
          → Triple
              (Known K)
              (execute world quiet program args)
              (λ e s.
                Known K s
                × (succeeded e ≡ true
                    → test e ≡ true
                    → Saw (HasRun quiet program args test) s.calls))
              Done
      look_run program args test =
          ask K k
            (λ e log. succeeded e ≡ true → test e ≡ true → Saw (HasRun quiet program args test) log)
            (λ calls. world.execute calls quiet program args) (runs quiet program args)
            (λ before _. looks (runs quiet program args) before tt)
            (λ e before answer well passed. inl (refl, (e, answer, well, passed)))

      pub Saw-Lasting : (P : Call → List Call → Type 0) → Lasting (λ log. K log × Saw P log)
      Saw-Lasting P = record { lasts = λ c before h. (k.lasts c before (h.0), inr (h.1)) }

    module _ (K : List Call → Type 0) (k : Lasting K) (path : String) where
      abbrev Head : Call → List Call → Type 0
      Head =
          HasRun quiet "git" (git_args world settings (head_args world settings path))
            is_pinned_commit

      abbrev Tree : Call → List Call → Type 0
      Tree =
          HasRun quiet "git" (git_args world settings (worktree_args world settings path)) is_silent

      abbrev With : (Call → List Call → Type 0) → (List Call → Type 0) → List Call → Type 0
      With P L log = L log × Saw P log

      -- A status that is verified stands behind both runs of Git.
      abbrev pub Stated : Status → Run → Type 0
      Stated status s = Known K s × (is_verified status ≡ true → IsPinned path s.calls)

      not_pinned :
          (text : String) {P : Run → Type 0}
          → ((s : Run) → P s → Known K s)
          → Triple P (pure (unverified text)) Stated Done
      not_pinned text known = record { at = λ s h. (known s h, λ e. absurd (cc)) }

      worktree_status-Known :
          (dirty : Executed)
          → Triple
              (λ s.
                Known (With Head K) s
                × (succeeded dirty ≡ true → is_silent dirty ≡ true → Saw Tree s.calls))
              (worktree_status world settings path dirty)
              Stated
              Done
      worktree_status-Known dirty =
          Triple-if Stated (not (succeeded dirty)) _ _
            (λ _. not_pinned "cannot_check_worktree" (λ s ((g, (h, _)), _). (g, h)))
            (λ well.
              Triple-if Stated (not (is_silent dirty)) _ _
                (λ _. not_pinned "dirty_worktree" (λ s ((g, (h, _)), _). (g, h)))
                (λ clean.
                  Triple-bind (λ _. Known (With Tree (With Head K))) Stated _ _
                    (Triple-pre _ (Known (With Tree (With Head K))) _ _
                      (λ s ((g, h), tree). (g, (h, tree (not-false _ well) (not-false _ clean))))
                      (look (With Tree (With Head K)) both_last _ (accesses manifest) tt))
                    (λ b. record { at = λ s (g, ((h, head), tree)). ((g, h), λ _. (head, tree)) })))
        where
          manifest : String
          manifest = settings.join (path ∷ "codex-rs" ∷ "Cargo.toml" ∷ [])

          both_last : Lasting (With Tree (With Head K))
          both_last = Saw-Lasting (With Head K) (Saw-Lasting K k Head) Tree

      head_status-Known :
          (head : Executed)
          → Triple
              (λ s.
                Known K s
                × (succeeded head ≡ true → is_pinned_commit head ≡ true → Saw Head s.calls))
              (head_status world settings path head)
              Stated
              Done
      head_status-Known head =
          Triple-if Stated (not (succeeded head)) _ _
            (λ _. not_pinned "not_git_checkout" (λ s h. h.0))
            (λ well.
              Triple-if Stated (not (is_pinned_commit head)) _ _
                (λ _. not_pinned "wrong_commit" (λ s h. h.0))
                (λ pinned.
                  Triple-bind _ Stated _ _
                    (Triple-pre _ (Known (With Head K)) _ _
                      (λ s ((g, h), seen). (g, (h, seen (not-false _ well) (not-false _ pinned))))
                      (look_run (With Head K) (Saw-Lasting K k Head) "git"
                        (git_args world settings (worktree_args world settings path)) is_silent))
                    worktree_status-Known))

      pub source_status-Known : Triple (Known K) (source_status world settings path) Stated Done
      unfolding source_status
      source_status-Known =
          Triple-bind (λ _. Known K) Stated _ _ (look K k _ (accesses path) tt)
            (λ b.
              Triple-if Stated (not b) _ _ (λ _. record { at = λ s h. (h, λ e. absurd (cc)) })
                (λ _.
                  Triple-bind _ Stated _ _
                    (look_run K k "git" (git_args world settings (head_args world settings path))
                      is_pinned_commit)
                    head_status-Known))
