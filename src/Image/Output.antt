-- ===== src/Image/Output.antt =====
-- scripts/desktop-image-mcp.mjs: `isInside` and `reserveOutput`, over the platform's functions on
-- paths.
pub mod Inside
use codex_official_bridge.Prelude.{
  ℕ, zero, suc, ◌⊕◌, code, String, Bool, true, false, not, ◌&&◌, ◌||◌, Option, none, some, List, [],
  ◌∷◌, ◌==◌, leb, ltb, if◌then◌else◌,
}
use codex_official_bridge.Codes.{Codes, codes}
use codex_official_bridge.Text.{strip_prefix}
use codex_official_bridge.Image.{Failure, out_of_fuel, Outcome, done, failed, ◌>>=◌, fail}

-- What `realpath` and `open` answer.
pub data Resolved : Type 0 where
  there : (path : String) → Resolved
  missing failing : Resolved

pub data Opening : Type 0 where
  opened exists unwritable : Opening

-- `is_png` is the test of the extension; `realpath` and `realpath_after` are before and after
-- `mkdir`, which may fail.
pub record Platform : Type 0 where
  pub separator : String
  pub is_absolute : String → Bool
  pub is_png : String → Bool
  pub relative : String → String → String
  pub resolve : String → String
  pub dirname : String → String
  pub basename : String → String
  pub join : String → String → String
  pub realpath : String → Resolved
  pub makes : Bool
  pub realpath_after : String → Resolved
  pub opens : String → Opening

abbrev starts_with : String → String → Bool
starts_with prefix s = elim (strip_prefix prefix s) [ none ↦ false | some rest ↦ true ]

-- `/[\x00-\x1f]/.test(s)`.
abbrev has_control : Codes → Bool
has_control [] = false
has_control (c ∷ cs) = leb c 31 || has_control cs

module _ (platform : Platform) where
  unfoldable pub is_inside : (root target : String) → Bool
  is_inside root target =
      let rel = platform.relative root target in
      (rel == "")
      || (not (starts_with (".." ⊕ platform.separator) rel)
          && not (rel == "..")
          && not (platform.is_absolute rel))

  -- `roots.find(root => isInside(root, target))`.
  abbrev pub find_root : List String → String → Option String
  find_root [] target = none
  find_root (root ∷ roots) target =
      if is_inside root target then some root else find_root roots target

  abbrev outside : {A : Type 0} → Outcome A
  outside = fail "output_outside_root" "The output directory resolves outside its configured root."

  abbrev unavailable : {A : Type 0} → Outcome A
  unavailable = fail "invalid_output_path" "The output directory is unavailable."

  abbrev pub allowed_root : Resolved → Outcome String
  allowed_root (there path) = done path
  allowed_root _ = fail "output_root_unavailable" "The configured output root does not exist."

  -- One round of the loop, by what `realpath` answers, whether the ancestor is its own parent, and
  -- what the further rounds give.
  abbrev pub check_at :
      (allowed : String) → Resolved → (top : Bool) → Outcome (Unit {0}) → Outcome (Unit {0})
  check_at allowed (there path) top rest = if is_inside allowed path then done tt else outside
  check_at allowed failing top rest = unavailable
  check_at allowed missing top rest = if top then unavailable else rest

  -- The `while` loop over the ancestors, up to the first that exists.
  unfoldable pub check_ancestors : (fuel : ℕ) → (allowed ancestor : String) → Outcome (Unit {0})
  check_ancestors zero allowed ancestor = failed out_of_fuel
  check_ancestors (suc fuel) allowed ancestor =
      let parent = platform.dirname ancestor in
      let rest = check_ancestors fuel allowed parent in
      check_at allowed (platform.realpath ancestor) (parent == ancestor) rest

  -- What follows `mkdir`: an error of `mkdir` or of the second `realpath` is passed on.
  abbrev pub resolved_parent : Resolved → Outcome String
  resolved_parent (there path) = done path
  resolved_parent _ = failed Failure.other

  abbrev pub make_directory : Outcome (Unit {0})
  make_directory = if platform.makes then done tt else failed Failure.other

  abbrev pub check_inside : (allowed path : String) → Outcome (Unit {0})
  check_inside allowed path = if is_inside allowed path then done tt else outside

  abbrev pub opened_at : String → Opening → Outcome String
  opened_at path opened = done path
  opened_at path exists =
      fail "output_exists" "The output file already exists. Choose a new filename."
  opened_at path unwritable = fail "output_unwritable" "The output file could not be created."

  abbrev pub is_output : String → Bool
  is_output path =
      platform.is_absolute path && platform.is_png path && not (has_control (codes path))

  abbrev pub root_of : Option String → Outcome String
  root_of none =
      fail "output_outside_root" "The output path is outside the configured output roots."
  root_of (some root) = done root

  -- `reserveOutput(outputPath, roots)`: the path that was created and opened.
  unfoldable pub reserve_output :
      (fuel : ℕ) → (path : String) → (roots : List String) → Outcome String
  unfolding check_ancestors
  reserve_output fuel path roots =
      if not (is_output path)
      then fail "invalid_output_path" "Use an absolute .png path within a configured output root."
      else do
        let target : String = platform.resolve path
        matching ← root_of (find_root roots target)
        allowed ← allowed_root (platform.realpath matching)
        _ ← check_ancestors fuel allowed (platform.dirname target)
        _ ← make_directory
        parent ← resolved_parent (platform.realpath_after (platform.dirname target))
        _ ← check_inside allowed parent
        let chosen : String = platform.join parent (platform.basename target)
        opened_at chosen (platform.opens chosen)
