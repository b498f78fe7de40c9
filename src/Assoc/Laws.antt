-- ===== src/Assoc/Laws.antt =====
-- What is found after entries were dropped or put.
use codex_official_bridge.Prelude.{
  String, ◌≡◌, refl, ap, Bool, none, some, List, [], ◌∷◌, ◌==◌, arith, Bool-cases, inl, inr, eq_iff,
  if◌then◌else◌,
}
use codex_official_bridge.Assoc.{find, put, drop_keys}

module _ {A : Type 0} where
  pub find-drop_keys :
      (removed : String → Bool) (es : List (String × A)) (key : String)
      → find (drop_keys removed es) key ≡ (if removed key then none else find es key)
  unfolding find drop_keys
  find-drop_keys removed [] key = ground arith
  find-drop_keys removed ((k, v) ∷ rest) key =
      let h = find-drop_keys removed rest key in
      elim (Bool-cases (k == key)) [
        | inl same ↦ ground (arith, h, same, ap removed ((eq_iff k key).0 same))
        | inr differs ↦ ground (arith, h, differs)
      ]

  pub find-put :
      (es : List (String × A)) (key other : String) (v : A)
      → find (put es key v) other ≡ (if key == other then some v else find es other)
  unfolding find put
  find-put [] key other v = refl
  find-put ((k, w) ∷ rest) key other v =
      let h = find-put rest key other v in
      elim (Bool-cases (k == key)) [
        | inl same ↦ ground (arith, same, ap (λ t. t == other) ((eq_iff k key).0 same))
        | inr differs ↦ elim (Bool-cases (key == other)) [
          | inl found ↦
              ground (arith, h, differs, found, ap (λ t. k == t) ((eq_iff key other).0 found))
          | inr not_found ↦ ground (arith, h, differs, not_found)
        ]
      ]
