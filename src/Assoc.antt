-- ===== src/Assoc.antt =====
-- Objects whose keys are texts, as lists of pairs: environments and headers.
pub mod Laws
use codex_official_bridge.Prelude.{
  String, Bool, true, false, not, Option, none, some, List, [], ◌∷◌, ◌==◌, if◌then◌else◌,
}

module _ {A : Type 0} where
  -- `object[key]`.
  unfoldable pub find : List (String × A) → String → Option A
  find [] key = none
  find ((k, v) ∷ rest) key = let found = find rest key in if k == key then some v else found

  -- `{ ...object, [key]: value }`.
  unfoldable pub put : List (String × A) → String → A → List (String × A)
  put [] key value = (key, value) ∷ []
  put ((k, v) ∷ rest) key value =
      let changed = put rest key value in if k == key then (k, value) ∷ rest else (k, v) ∷ changed

  -- The entries whose key passes no test of removal.
  unfoldable pub drop_keys : (String → Bool) → List (String × A) → List (String × A)
  drop_keys removed [] = []
  drop_keys removed ((k, v) ∷ rest) =
      let kept = drop_keys removed rest in if removed k then kept else (k, v) ∷ kept
