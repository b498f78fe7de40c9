-- ===== src/Image/Stdio/Counts.antt =====
-- How often an id is among the tool calls of scripts/desktop-image-mcp.mjs.
use codex_official_bridge.Prelude.{
  ℕ, ◌+◌, ◌≡◌, refl, ap, Bool, true, false, inl, inr, List, [], ◌∷◌, ◌++◌, arith, Bool-cases,
  if◌then◌else◌,
}
use codex_official_bridge.Json.{Value, strict_eq}
use codex_official_bridge.Json.Keys.{strict_eq-path}
use codex_official_bridge.Image.Stdio.{
  Active, Reply, result, has_active, abort_at, abort_all, drop_at,
}

abbrev pub once_if : Bool → ℕ
once_if b = if b then 1 else 0

-- How often an id is in `active`, has a result of a tool call, and was started.
abbrev pub count_active : Value → List Active → ℕ
count_active i [] = 0
count_active i (a ∷ rest) = once_if (strict_eq a.id i) + count_active i rest

abbrev pub result_for : Value → Reply → ℕ
result_for i (result id outcome) = once_if (strict_eq id i)
result_for i _ = 0

abbrev pub count_results : Value → List Reply → ℕ
count_results i [] = 0
count_results i (r ∷ rest) = result_for i r + count_results i rest

abbrev pub count_started : Value → List Value → ℕ
count_started i [] = 0
count_started i (id ∷ rest) = once_if (strict_eq id i) + count_started i rest

pub count_active-append :
    (i : Value) (xs : List Active) (a : Active)
    → count_active i (xs ++ a ∷ []) ≡ count_active i xs + once_if (strict_eq a.id i)
count_active-append i [] a = omega arith
count_active-append i (b ∷ xs) a = omega (arith, count_active-append i xs a)

pub count_results-append :
    (i : Value) (rs : List Reply) (r : Reply)
    → count_results i (rs ++ r ∷ []) ≡ count_results i rs + result_for i r
count_results-append i [] r = omega arith
count_results-append i (q ∷ rs) r = omega (arith, count_results-append i rs r)

pub count_started-append :
    (i : Value) (ids : List Value) (id : Value)
    → count_started i (ids ++ id ∷ []) ≡ count_started i ids + once_if (strict_eq id i)
count_started-append i [] id = omega arith
count_started-append i (j ∷ ids) id = omega (arith, count_started-append i ids id)

pub count_active-abort_at :
    (i id : Value) (xs : List Active) → count_active i (abort_at id xs) ≡ count_active i xs
unfolding abort_at
count_active-abort_at i id [] = refl
count_active-abort_at i id (a ∷ xs) = ground (arith, count_active-abort_at i id xs)

pub count_active-abort_all :
    (i : Value) (xs : List Active) → count_active i (abort_all xs) ≡ count_active i xs
unfolding abort_all
count_active-abort_all i [] = refl
count_active-abort_all i (a ∷ xs) = omega (arith, count_active-abort_all i xs)

pub count_active-drop_at :
    (i id : Value) (xs : List Active)
    → has_active id xs ≡ true
    → count_active i xs ≡ count_active i (drop_at id xs) + once_if (strict_eq id i)
unfolding has_active drop_at
count_active-drop_at i id [] h = cc
count_active-drop_at i id (a ∷ xs) h = elim (Bool-cases (strict_eq a.id id)) [
  | inl e ↦ ground (arith, e, ap (λ v. strict_eq v i) (strict_eq-path a.id id e))
  | inr n ↦ ground (arith, n, h, count_active-drop_at i id xs)
]

pub has_active-none :
    (id : Value) (xs : List Active) → has_active id xs ≡ false → count_active id xs ≡ 0
unfolding has_active
has_active-none id [] h = refl
has_active-none id (a ∷ xs) h = ground (arith, h, has_active-none id xs)
