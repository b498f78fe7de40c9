-- ===== src/Image/Output/Inside.antt =====
-- scripts/desktop-image-mcp.mjs, `reserveOutput`: its loop ends, and it opens nothing outside.
use codex_official_bridge.Prelude.{ℕ, ◌<◌, ◌≡◌, ◌⊎◌, String, true, some, List, ◌==◌}
use codex_official_bridge.Image.{Failure, out_of_fuel, Outcome}
use codex_official_bridge.Image.Verdict.{Verdict}
use codex_official_bridge.Image.Output.{there, opened, Platform, is_inside, find_root}

abbrev pub IsError : Failure → Type 0
IsError out_of_fuel = ⊥
IsError _ = Unit

-- A result with a property, or an error that the source knows.
abbrev pub Ends : {A : Type 0} → (A → Type 0) → Outcome A → Type 0
Ends P m = Verdict IsError P m

abbrev Any : Unit {0} → Type 0
Any u = Unit

module _ (platform : Platform) where
  -- The parent of an absolute path is absolute, and shorter by some measure unless it is that path.
  abbrev pub Shrinks : (String → ℕ) → Type 0
  Shrinks size =
      (path : String)
      → platform.is_absolute path ≡ true
      → (platform.is_absolute (platform.dirname path) ≡ true)
        × ((platform.dirname path == path ≡ true) ⊎ (size (platform.dirname path) < size path))

  -- What is opened: a path in a directory that is inside the root where that is in truth.
  abbrev pub IsAllowed : (path : String) → (roots : List String) → String → Type 0
  IsAllowed path roots chosen =
      (root : String) × (allowed : String) × (parent : String) × (find_root platform roots
          (platform.resolve path)
        ≡ some root)
      × (platform.realpath root ≡ there allowed)
      × (platform.realpath_after (platform.dirname (platform.resolve path)) ≡ there parent)
      × (is_inside platform allowed parent ≡ true)
      × (chosen ≡ platform.join parent (platform.basename (platform.resolve path)))
      × (platform.opens chosen ≡ opened)
