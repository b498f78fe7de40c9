-- ===== src/Text/Laws.antt =====
-- Prefixes are split off exactly, and decimal numbers read back.
use Prim.Native.String.{[], ◌∷◌}
use text.Mathlib.TextEquality.{Char-path}
use text.Mathlib.TextLemmas.{nil-append, cons-append}
use codex_official_bridge.Prelude.{
  ℕ, zero, suc, ◌+◌, ◌*◌, ◌/◌, ◌%◌, ◌<◌, Char, code, String, ◌≡◌, refl, ap, ◌∙◌, true, inl, inr,
  some, arith, Bool-cases, nat_eq, ltb, leb, ◌&&◌, ◌⊕◌,
}
use codex_official_bridge.Text.{
  strip_prefix, digit, decimal_from, decimal, digits_value, parse_digits,
}

pub strip_prefix_sound : (p s r : String) → strip_prefix p s ≡ some r → s ≡ p ⊕ r
unfolding strip_prefix
strip_prefix_sound [] s r e = rw nil-append (ground arith)
strip_prefix_sound (c ∷ p) [] r e = cc
strip_prefix_sound (c ∷ p) (d ∷ s) r e = elim (Bool-cases (nat_eq (code c) (code d))) [
  | inl same ↦
      let head = Char-path c d (ground arith) in
      let tail = strip_prefix_sound p s r (rw same at e) in rw cons-append (cc (head, tail))
  | inr differ ↦ cc (rw differ at e)
]

pub strip_prefix-append : (p r : String) → strip_prefix p (p ⊕ r) ≡ some r
unfolding strip_prefix
strip_prefix-append [] r = rw nil-append
strip_prefix-append (c ∷ p) r = rw cons-append (ground (arith, strip_prefix-append p r))

digit_code : (n : ℕ) → n < 10 → code (digit n) ≡ b'0' + n
digit_code zero h = refl
digit_code (suc zero) h = refl
digit_code (suc (suc zero)) h = refl
digit_code (suc (suc (suc zero))) h = refl
digit_code (suc (suc (suc (suc zero)))) h = refl
digit_code (suc (suc (suc (suc (suc zero))))) h = refl
digit_code (suc (suc (suc (suc (suc (suc zero)))))) h = refl
digit_code (suc (suc (suc (suc (suc (suc (suc zero))))))) h = refl
digit_code (suc (suc (suc (suc (suc (suc (suc (suc zero)))))))) h = refl
digit_code (suc (suc (suc (suc (suc (suc (suc (suc (suc n))))))))) h = omega arith

digits_value-digit :
    (a n : ℕ) (s : String) → n < 10 → digits_value a (digit n ∷ s) ≡ digits_value (a * 10 + n) s
unfolding digits_value
digits_value-digit a n s h =
    let e = digit_code n h in rw (e, in_range) (ap (λ (k : ℕ). digits_value k s) (omega arith))
  where
    in_range : (leb b'0' (b'0' + n) && leb (b'0' + n) b'9') ≡ true
    in_range = ground arith

digits_value-decimal_from :
    (f n : ℕ) (acc : String) → n < f → digits_value 0 (decimal_from f n acc) ≡ digits_value n acc
unfolding decimal_from
digits_value-decimal_from zero n acc h = elim h [ ]
digits_value-decimal_from (suc f) n acc h = elim (Bool-cases (ltb n 10)) [
  | inl small ↦ rw small (
      digits_value-digit 0 (n % 10) acc (omega arith)
      ∙ ap (λ (k : ℕ). digits_value k acc) (ground arith))
  | inr large ↦ rw large (
      digits_value-decimal_from f (n / 10) (digit (n % 10) ∷ acc) (ground arith)
      ∙ digits_value-digit (n / 10) (n % 10) acc (omega arith)
      ∙ ap (λ (k : ℕ). digits_value k acc) (omega arith))
]

decimal_from-cons :
    (f n : ℕ) (c : Char) (acc : String)
    → parse_digits (decimal_from f n (c ∷ acc)) ≡ digits_value 0 (decimal_from f n (c ∷ acc))
unfolding parse_digits decimal_from
decimal_from-cons zero n c acc = refl
decimal_from-cons (suc f) n c acc = elim (Bool-cases (ltb n 10)) [
  | inl small ↦ rw small
  | inr large ↦ rw large (decimal_from-cons f (n / 10) (digit (n % 10)) (c ∷ acc))
]

parse_digits-decimal_from :
    (f n : ℕ)
    → parse_digits (decimal_from (suc f) n []) ≡ digits_value 0 (decimal_from (suc f) n [])
unfolding parse_digits decimal_from
parse_digits-decimal_from f n = elim (Bool-cases (ltb n 10)) [
  | inl small ↦ rw small
  | inr large ↦ rw large (decimal_from-cons f (n / 10) (digit (n % 10)) [])
]

-- A printed number reads back.
pub parse_digits-decimal : (n : ℕ) → parse_digits (decimal n) ≡ some n
unfolding decimal digits_value
parse_digits-decimal n =
    parse_digits-decimal_from n n ∙ digits_value-decimal_from (suc n) n [] (omega arith)
