-- ===== src/Build.antt =====
-- scripts/build-native-runtime.mjs. What it asks of the file system and of other programs is a log
-- of calls, the newest first, and an answer may depend on all the calls before it. Not in it: the
-- environment and the working directory of the programs, what is printed, and the signals.
pub mod Toolchain
pub mod Stages
pub mod Logged
pub mod Checked
pub mod Guarded
pub mod Building
pub mod Script
use codex_official_bridge.Prelude.{
  ℕ, ◌*◌, ◌^◌, String, Bool, true, false, not, ◌&&◌, ◌||◌, Option, none, some, List, [], ◌∷◌, ◌++◌,
  ◌==◌, ◌⊕◌, ltb, nat_eq, if◌then◌else◌,
}
use codex_official_bridge.Protocol.Error.{Thrown, other, Result, ok, throw}
use codex_official_bridge.Codes.{Codes, codes, same_codes, trim, split, starts_with}
use codex_official_bridge.Action.{Action, pure, raise, gets, modify, when, ◌>>=◌, ◌>>◌}

-- The `stage` of `execute`, or `quiet`.
pub data Stage : Type 0 where
  quiet source_download native_compilation : Stage

pub data Call : Type 0 where
  accesses : (path : String) → Call
  measures : (path : String) → Call
  runs : Stage → (program : String) → (args : List String) → Call
  makes_directory : (path : String) → Call
  resolves : (path : String) → Call
  links : (target path : String) → Call
  renames : (from to : String) → Call
  removes : (path : String) → Call
  copies : (from to : String) → Call
  reads : (path : String) → Call
  stats : (path : String) → Call
  changes_mode : (path : String) → Call

pub data Found : Type 0 where
  there missing inaccessible : Found

-- What `execute` resolves with; no code where the program did not start or was killed.
pub record Executed : Type 0 where
  pub code : Option ℕ
  pub output : Codes

-- The answers. Where there is none, the call throws, or the build was interrupted.
pub record World : Type 0 where
  pub found : List Call → String → Found
  pub free_bytes : List Call → String → Option ℕ
  pub execute : List Call → Stage → String → List String → Option Executed
  pub real_path : List Call → String → Option String
  pub contents : List Call → String → Option Codes
  pub is_file : List Call → String → Option Bool
  pub changes : List Call → Call → Bool
  pub uuid : List Call → String
  pub interrupted : List Call → Bool

-- The constants of the script, the functions of `path` on them, and its arguments. `ancestors` are
-- the directories above `runtime`, the nearest first, to the root.
pub record Settings : Type 0 where
  pub runtime : String
  pub ancestors : List String
  pub vendor : String
  pub manifest : String
  pub lockfile : String
  pub target : String
  pub built : String
  pub destination : String
  pub source : String
  pub source_was_explicit : Bool
  pub is_windows : Bool
  pub dev_null : String
  pub join : List String → String
  pub dirname : String → String

pub record Run : Type 0 where
  pub calls : List Call
  -- The `code` of the last `check` that failed.
  pub failure : Option String
  pub exit_code : ℕ

abbrev pub source_commit : Codes
source_commit = codes "b5bffd3ec4db487e7e3dec59663875b0ef7b72ca"

abbrev pub source_tag : String
source_tag = "rust-v0.154.0-alpha.6.2"

abbrev pub source_url : String
source_url = "https://github.com/openai/codex.git"

abbrev pub rust_version : String
rust_version = "1.95.0"

abbrev pub binary_name : String
binary_name = "codex-official-runtime"

abbrev pub min_free_bytes : ℕ
min_free_bytes = 8 * 1024 ^ 3

abbrev pub some_of : (Codes → Bool) → List Codes → Bool
some_of test [] = false
some_of test (x ∷ xs) = test x || some_of test xs

-- `check(condition, code, message)`.
unfoldable pub check : Bool → String → Action Run (Unit {0})
check true code = pure tt
check false code = do modify (λ s. record s { failure = some code }); raise other

-- A call with its answer; an answer that is missing is a throw.
abbrev result_of : {A : Type 0} → Option A → Result A
result_of (some a) = ok a
result_of none = throw other

abbrev pub answered : {A : Type 0} → (List Call → Option A) → Call → Action Run A
answered answer call s = (result_of (answer s.calls), record s { calls = call ∷ s.calls })

-- `try { body } finally { last }`.
abbrev after_last : {A : Type 0} → Result A → Result (Unit {0}) × Run → Result A × Run
after_last r (ok _, s) = (r, s)
after_last r (throw e, s) = (throw e, s)

unfoldable pub finally : {A : Type 0} → Action Run A → Action Run (Unit {0}) → Action Run A
finally body last s = let (r, s') = body s in after_last r (last s')

abbrev done_if : Bool → Option (Unit {0})
done_if b = if b then some tt else none

abbrev pub succeeded : Executed → Bool
succeeded e = elim e.code [ some n ↦ nat_eq n 0 | none ↦ false ]

abbrev pub there_of : Found → Option Bool
there_of there = some true
there_of missing = some false
there_of inaccessible = none

pub data Status : Type 0 where
  verified : Status
  unverified : (status : String) → Status
  absent : Status

abbrev pub is_verified : Status → Bool
is_verified verified = true
is_verified _ = false

-- `{ status: 'ready', command, args }`, or another status.
pub data Rust : Type 0 where
  ready : (command : String) → (args : List String) → Rust
  unready : (status : String) → Rust

abbrev pub is_ready : Rust → Bool
is_ready (ready command args) = true
is_ready (unready status) = false

module _ (world : World) where
  -- A call of the file system that changes something.
  abbrev pub change : Call → Action Run (Unit {0})
  change call = answered (λ calls. done_if (world.changes calls call)) call

  abbrev pub exists : String → Action Run Bool
  exists path = answered (λ calls. there_of (world.found calls path)) (accesses path)

  abbrev pub execute : Stage → String → List String → Action Run Executed
  execute stage program args =
      answered (λ calls. world.execute calls stage program args) (runs stage program args)

  module _ (settings : Settings) where
    abbrev pub git_args : List String → List String
    git_args args =
        "-c" ∷ ("core.hooksPath=" ⊕ settings.dev_null) ∷ "-c" ∷ "protocol.file.allow=never" ∷ args

    abbrev pub git : Stage → List String → Action Run Executed
    git stage args = execute stage "git" (git_args args)

    abbrev pub head_args : String → List String
    head_args location = "-C" ∷ location ∷ "rev-parse" ∷ "--verify" ∷ "HEAD^{commit}" ∷ []

    abbrev pub worktree_args : String → List String
    worktree_args location =
        "-C" ∷ location ∷ "status" ∷ "--porcelain" ∷ "--untracked-files=all" ∷ []

    abbrev manifest_status : Bool → Status
    manifest_status b = if b then verified else unverified "missing_official_manifest"

    abbrev worktree_status : String → Executed → Action Run Status
    worktree_status location dirty =
        if not (succeeded dirty)
        then pure (unverified "cannot_check_worktree")
        else if not (same_codes (trim dirty.output) [])
        then pure (unverified "dirty_worktree")
        else exists (settings.join (location ∷ "codex-rs" ∷ "Cargo.toml" ∷ [])) >>= λ b.
            pure (manifest_status b)

    abbrev head_status : String → Executed → Action Run Status
    head_status location head =
        if not (succeeded head)
        then pure (unverified "not_git_checkout")
        else if not (same_codes (trim head.output) source_commit)
        then pure (unverified "wrong_commit")
        else git quiet (worktree_args location) >>= worktree_status location

    unfoldable pub source_status : String → Action Run Status
    source_status location = exists location >>= λ b.
        if not b then pure absent else git quiet (head_args location) >>= head_status location

    -- The nearest directory above that there is; the last one is the root, which always is.
    unfoldable pub existing : String → List String → Action Run String
    existing location [] = exists location >>= λ b. pure location
    existing location (parent ∷ parents) =
        let rest = existing parent parents in
        exists location >>= λ b. if b then pure location else rest

    unfoldable pub free_space : Action Run Bool
    free_space = existing settings.runtime settings.ancestors >>= λ location.
        answered (λ calls. world.free_bytes calls location) (measures location) >>= λ bytes.
        pure (not (ltb bytes min_free_bytes))
