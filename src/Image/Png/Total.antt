-- ===== src/Image/Png/Total.antt =====
-- scripts/desktop-image-mcp.mjs, `inspectPng`: it ends on every buffer and reads within it.
use codex_official_bridge.Prelude.{
  ℕ, zero, suc, ◌+◌, ◌*◌, ◌≤◌, ◌<◌, ◌≡◌, refl, String, Bool, false, not, [], ◌∷◌, length, ltb,
  arith, if_both, if_cases, elim_both,
}
use codex_official_bridge.Codes.Laws.{length-drop}
use codex_official_bridge.Codes.{Codes, codes, same_codes, drop, take}
use codex_official_bridge.Image.{Failure, tool_error, other, out_of_fuel, Outcome, ◌>>=◌, fail}
use codex_official_bridge.Image.Verdict.{Verdict, Verdict-bind, Verdict-done, Verdict-error}
use codex_official_bridge.Image.Png.{
  Png, number, read_u32, ascii4, walk, signature, check_header, check_sizes, inspect_png,
}

-- The error that `invalid_image` names, and no other.
abbrev pub IsRefusal : Failure → Type 0
IsRefusal (tool_error code message status) = code ≡ "invalid_image"
IsRefusal other = ⊥
IsRefusal out_of_fuel = ⊥

-- A result with a property, or that error.
abbrev pub Yields : {A : Type 0} → (A → Type 0) → Outcome A → Type 0
Yields P m = Verdict IsRefusal P m

Yields-fail :
    {A : Type 0} (P : A → Type 0) (message : String) → Yields P (fail "invalid_image" message)
Yields-fail P message = Verdict-error IsRefusal P _ refl

abbrev Any : {A : Type 0} → A → Type 0
Any a = Unit

number-Yields : (bytes : Codes) → 4 ≤ length bytes → Yields Any (number bytes)
number-Yields [] h = absurd (omega arith)
number-Yields (a ∷ []) h = absurd (omega arith)
number-Yields (a ∷ b ∷ []) h = absurd (omega arith)
number-Yields (a ∷ b ∷ c ∷ []) h = absurd (omega arith)
number-Yields (a ∷ b ∷ c ∷ d ∷ rest) h = Verdict-done IsRefusal Any _ tt

read_u32-Yields :
    (offset : ℕ) (buffer : Codes) → offset + 4 ≤ length buffer → Yields Any (read_u32 offset buffer)
unfolding read_u32
read_u32-Yields offset buffer h =
    number-Yields (drop offset buffer) (omega (arith, length-drop offset buffer))

walk-Yields :
    (fuel offset : ℕ) (seen : Bool) (buffer : Codes)
    → 1 ≤ fuel
    → length buffer < offset + fuel
    → Yields Any (walk fuel offset seen buffer)
unfolding walk ◌>>=◌
walk-Yields zero offset seen buffer some_fuel enough = absurd (omega arith)
walk-Yields (suc fuel) offset seen buffer some_fuel enough =
    if_cases (Yields Any) (ltb (length buffer) (offset + 12)) _ _
      (λ ends. Verdict-done IsRefusal Any _ tt)
      λ more.
        Verdict-bind IsRefusal Any Any (read_u32 offset buffer) _
          (read_u32-Yields offset buffer (ground (arith, more)))
          λ size known. elim_both (Yields Any) _ _ _ (Yields-fail Any _) (
            elim_both (Yields Any) _ _ _ (Verdict-done IsRefusal Any _ tt) (
              walk-Yields fuel (offset + (12 + size)) _ buffer (ground (arith, more))
                (ground (arith, more))))

abbrev pub IsDrawable : Png → Type 0
IsDrawable p =
    (1 ≤ p.width)
    × (p.width ≤ 32768)
    × (1 ≤ p.height)
    × (p.height ≤ 32768)
    × (p.width * p.height ≤ 100000000)

check_header-Yields :
    (buffer : Codes) → Yields (λ done_so. 33 ≤ length buffer) (check_header buffer)
check_header-Yields buffer =
    if_cases (Yields Long) (ltb (length buffer) 33) _ _ (λ short. Yields-fail Long _)
      λ long.
        if_both (Yields Long) (not (same_codes (take 8 buffer) signature)) _ _ (Yields-fail Long _)
          (if_both (Yields Long) (not (same_codes (ascii4 12 buffer) (codes "IHDR"))) _ _
            (Yields-fail Long _)
            (Verdict-bind IsRefusal Any Long (read_u32 8 buffer) _
              (read_u32-Yields 8 buffer (ground (arith, long)))
              λ size known.
                elim_both (Yields Long) _ _ _ (Verdict-done IsRefusal Long _ (ground (arith, long)))
                  (Yields-fail Long _)))
  where
    Long : Unit {0} → Type 0
    Long checked = 33 ≤ length buffer

check_sizes-Yields :
    (width height : ℕ)
    → Yields
        (λ done_so. IsDrawable (record { width = width; height = height }))
        (check_sizes width height)
check_sizes-Yields width height =
    if_cases (Yields _) _ _ _ (λ wrong. Yields-fail _ _)
      λ right. Verdict-done IsRefusal _ _ (
        ground (arith, right),
        ground (arith, right),
        ground (arith, right),
        ground (arith, right),
        ground (arith, right),
      )

-- Whatever the buffer: with the fuel given the inspection ends, reads nothing behind the end, and
-- gives a picture whose sides and area are within the bounds, or the error `invalid_image`.
pub inspect_png-Yields : (buffer : Codes) → Yields IsDrawable (inspect_png buffer)
unfolding inspect_png
inspect_png-Yields buffer =
    Verdict-bind IsRefusal _ IsDrawable _ _ (check_header-Yields buffer) λ checked long.
      Verdict-bind IsRefusal Any IsDrawable _ _ (read_u32-Yields 16 buffer (omega (arith, long)))
        λ width w.
          Verdict-bind IsRefusal Any IsDrawable _ _
            (read_u32-Yields 20 buffer (omega (arith, long)))
            λ height h.
              Verdict-bind IsRefusal _ IsDrawable _ _ (check_sizes-Yields width height)
                λ sized drawable.
                  Verdict-bind IsRefusal Any IsDrawable _ _
                    (walk-Yields (length buffer) 8 false buffer (omega (arith, long))
                      (omega (arith, long)))
                    λ found walked.
                      elim_both (Yields IsDrawable) _ _ _
                        (Verdict-done IsRefusal IsDrawable _ drawable) (Yields-fail IsDrawable _)
