-- ===== src/Codes/Laws.antt =====
-- Lines without a break, and the parts of a buffer.
use codex_official_bridge.Prelude.{
  ℕ, zero, suc, ◌-◌, ◌≤◌, ◌≡◌, refl, ap, ◌∙◌, true, false, List, All, and_true, nat_eq, [], ◌∷◌,
  ◌++◌, length, arith,
}
use codex_official_bridge.Codes.{Codes, IsLine, same_codes, split, take, drop}

pub IsLine-append : (xs ys : Codes) → IsLine xs → IsLine ys → IsLine (xs ++ ys)
IsLine-append [] ys h k = k
IsLine-append (x ∷ xs) ys (e, h) k = (e, IsLine-append xs ys h k)

pub length-drop : (n : ℕ) (bytes : Codes) → length (drop n bytes) ≡ length bytes - n
length-drop zero bytes = omega arith
length-drop (suc n) [] = omega arith
length-drop (suc n) (b ∷ bytes) = omega (arith, length-drop n bytes)

pub take-drop : (n : ℕ) (p : Codes) → take n p ++ drop n p ≡ p
take-drop zero p = refl
take-drop (suc n) [] = refl
take-drop (suc n) (c ∷ p) = ap (λ rest. c ∷ rest) (take-drop n p)

-- More bytes behind the part that is taken make no difference to it.
pub take-append : (n : ℕ) (xs ys : Codes) → n ≤ length xs → take n (xs ++ ys) ≡ take n xs
take-append zero xs ys h = refl
take-append (suc n) [] ys h = absurd (omega arith)
take-append (suc n) (x ∷ xs) ys h = ap (λ rest. x ∷ rest) (take-append n xs ys (omega arith))

pub drop-append : (n : ℕ) (xs ys : Codes) → n ≤ length xs → drop n (xs ++ ys) ≡ drop n xs ++ ys
drop-append zero xs ys h = refl
drop-append (suc n) [] ys h = absurd (omega arith)
drop-append (suc n) (x ∷ xs) ys h = drop-append n xs ys (omega arith)

pub take-all : (xs : Codes) → take (length xs) xs ≡ xs
take-all [] = refl
take-all (x ∷ xs) = ap (λ rest. x ∷ rest) (take-all xs)

pub drop-all : (xs : Codes) → drop (length xs) xs ≡ []
drop-all [] = refl
drop-all (x ∷ xs) = drop-all xs

pub take-front : (n : ℕ) (xs ys : Codes) → n ≡ length xs → take n (xs ++ ys) ≡ xs
take-front n [] ys h = ap (λ k. take k ys) h
take-front zero (x ∷ xs) ys h = absurd (omega arith)
take-front (suc n) (x ∷ xs) ys h = ap (λ rest. x ∷ rest) (take-front n xs ys (omega arith))

pub drop-front : (n : ℕ) (xs ys : Codes) → n ≡ length xs → drop n (xs ++ ys) ≡ ys
drop-front n [] ys h = ap (λ k. drop k ys) h
drop-front zero (x ∷ xs) ys h = absurd (omega arith)
drop-front (suc n) (x ∷ xs) ys h = drop-front n xs ys (omega arith)

nat_eq-cons : (c d : ℕ) (a b : Codes) → nat_eq c d ≡ true → a ≡ b → c ∷ a ≡ d ∷ b
nat_eq-cons c d a b same rest = ap (λ n. n ∷ a) (equal c d same) ∙ ap (λ cs. d ∷ cs) rest
  where
    equal : (m n : ℕ) → nat_eq m n ≡ true → m ≡ n
    equal m n e = ground (arith, e)

pub same_codes-path : (a b : Codes) → same_codes a b ≡ true → a ≡ b
same_codes-path [] [] e = refl
same_codes-path (c ∷ a) (d ∷ b) e =
    let (head, tail) = and_true (nat_eq c d) (same_codes a b) e in
    nat_eq-cons c d a b head (same_codes-path a b tail)
same_codes-path a b e = cc

pub same_codes_refl : (a : Codes) → same_codes a a ≡ true
same_codes_refl [] = refl
same_codes_refl (c ∷ a) = ground (arith, same_codes_refl a)

-- Texts with a separator between them, and what `split` gives of them.
abbrev pub separated_by : ℕ → Codes → List Codes → Codes
separated_by separator first [] = first
separated_by separator first (part ∷ parts) = first ++ separator ∷ separated_by separator part parts

module _ (separator : ℕ) where
  abbrev pub IsPart : Codes → Type 0
  IsPart part = All (λ c. nat_eq c separator ≡ false) part

  split-part : (part : Codes) → IsPart part → split separator part ≡ part ∷ []
  split-part [] h = refl
  split-part (c ∷ part) (other, h) = rw (other, split-part part h) refl

  split-append :
      (part rest : Codes)
      → IsPart part
      → split separator (part ++ separator ∷ rest) ≡ part ∷ split separator rest
  split-append [] rest h = ground arith
  split-append (c ∷ part) rest (other, h) = rw (other, split-append part rest h) refl

  pub split-separated_by :
      (first : Codes) (parts : List Codes)
      → IsPart first
      → All IsPart parts
      → split separator (separated_by separator first parts) ≡ first ∷ parts
  split-separated_by first [] h k = split-part first h
  split-separated_by first (part ∷ parts) h (k, ks) =
      split-append first (separated_by separator part parts) h
      ∙ ap (λ rest. first ∷ rest) (split-separated_by part parts k ks)
