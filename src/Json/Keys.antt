-- ===== src/Json/Keys.antt =====
-- `a === b` on the values that serve as keys.
use codex_official_bridge.Prelude.{◌≡◌, refl, ap, true, false, eq_iff, arith}
use codex_official_bridge.Json.{
  Number, nat, decimal, infinite, Value, undefined, null, bool, num, str, is_number_eq, strict_eq,
}

is_number_eq-path : (a b : Number) → is_number_eq a b ≡ true → a ≡ b
is_number_eq-path (nat a) (nat b) e = ap nat (ground (arith, e))
is_number_eq-path (decimal a) (decimal b) e = ap decimal ((eq_iff a b).0 e)
is_number_eq-path (infinite true) (infinite true) e = refl
is_number_eq-path (infinite false) (infinite false) e = refl
is_number_eq-path a b e = cc

-- Values that the comparison takes for one are one.
pub strict_eq-path : (a b : Value) → strict_eq a b ≡ true → a ≡ b
strict_eq-path undefined undefined e = refl
strict_eq-path null null e = refl
strict_eq-path (bool true) (bool true) e = refl
strict_eq-path (bool false) (bool false) e = refl
strict_eq-path (num a) (num b) e = ap num (is_number_eq-path a b e)
strict_eq-path (str a) (str b) e = ap str ((eq_iff a b).0 e)
strict_eq-path a b e = cc
