-- ===== src/Codes.antt =====
-- Texts as the lists of their codes, where the source works on characters and bytes.
pub mod Laws
use Prim.Native.String
use codex_official_bridge.Text.{is_space}
use codex_official_bridge.Prelude.{
  ℕ, zero, suc, ◌+◌, ◌≡◌, code, String, Bool, true, false, not, ◌&&◌, ◌||◌, List, [], ◌∷◌, leb,
  nat_eq, if◌then◌else◌,
}

abbrev pub Codes : Type 0
Codes = List ℕ

abbrev pub codes : String → Codes
codes String.[] = []
codes (String.◌∷◌ c s) = code c ∷ codes s

abbrev pub same_codes : Codes → Codes → Bool
same_codes [] [] = true
same_codes (a ∷ xs) (b ∷ ys) = nat_eq a b && same_codes xs ys
same_codes _ _ = false

-- `\n` and `\r`.
abbrev pub is_break : ℕ → Bool
is_break c = nat_eq c 10 || nat_eq c 13

-- Without a line break.
abbrev pub IsLine : Codes → Type 0
IsLine [] = Unit
IsLine (c ∷ cs) = (is_break c ≡ false) × IsLine cs

-- `buffer.subarray(offset)` and the first bytes of a buffer.
abbrev pub drop : ℕ → Codes → Codes
drop zero bytes = bytes
drop (suc n) [] = []
drop (suc n) (b ∷ bytes) = drop n bytes

abbrev pub take : ℕ → Codes → Codes
take zero bytes = []
take (suc n) [] = []
take (suc n) (b ∷ bytes) = b ∷ take n bytes

-- `s.trim()`.
abbrev trim_start : Codes → Codes
trim_start [] = []
trim_start (c ∷ cs) = if is_space c then trim_start cs else c ∷ cs

abbrev add_back : ℕ → Codes → Codes
add_back c [] = if is_space c then [] else c ∷ []
add_back c rest = c ∷ rest

abbrev trim_end : Codes → Codes
trim_end [] = []
trim_end (c ∷ cs) = add_back c (trim_end cs)

abbrev pub trim : Codes → Codes
trim text = trim_end (trim_start text)

-- `s.split(separator)`, for one character.
abbrev add_front : ℕ → List Codes → List Codes
add_front c [] = (c ∷ []) ∷ []
add_front c (part ∷ parts) = (c ∷ part) ∷ parts

abbrev pub split : (separator : ℕ) → Codes → List Codes
split separator [] = [] ∷ []
split separator (c ∷ cs) =
    let parts = split separator cs in if nat_eq c separator then [] ∷ parts else add_front c parts

-- `s.startsWith(prefix)`.
abbrev pub starts_with : Codes → (prefix : Codes) → Bool
starts_with text [] = true
starts_with [] (p ∷ prefix) = false
starts_with (c ∷ text) (p ∷ prefix) = nat_eq c p && starts_with text prefix
