-- ===== src/Bits.antt =====
-- The bit operations of JavaScript on the bytes of a frame, as arithmetic.
use Prim.Native.Nat.{bit_and, bit_or, bit_xor, bit_xor-bitwise, digits, differ}
use codex_official_bridge.Prelude.{
  ℕ, zero, suc, ◌+◌, ◌*◌, ◌/◌, ◌%◌, ◌≤◌, ◌<◌, ◌≡◌, refl, ap, Bool, true, ◌&&◌, nat_eq, arith,
}

-- A test on every number below a bound, by evaluation.
abbrev everywhere : (bound : ℕ) → (ℕ → Bool) → Bool
everywhere zero test = true
everywhere (suc bound) test = test bound && everywhere bound test

everywhere-at :
    (bound : ℕ) (test : ℕ → Bool) (n : ℕ) → everywhere bound test ≡ true → n < bound → test n ≡ true
everywhere-at zero test n all below = absurd (omega arith)
everywhere-at (suc bound) test n all below = ground (arith, all, everywhere-at bound test n)

nat_eq-path : (a b : ℕ) → nat_eq a b ≡ true → a ≡ b
nat_eq-path a b e = ground (arith, e)

-- Two functions that agree below a bound, by evaluation.
tabled :
    (bound : ℕ) (f g : ℕ → ℕ) (n : ℕ)
    → everywhere bound (λ b. nat_eq (f b) (g b)) ≡ true
    → n < bound
    → f n ≡ g n
tabled bound f g n all below =
    nat_eq-path (f n) (g n) (everywhere-at bound (λ b. nat_eq (f b) (g b)) n all below)

pub bit_and-low : (b : ℕ) → b < 256 → bit_and b 127 ≡ b % 128
bit_and-low b byte = tabled 256 (λ b. bit_and b 127) (λ b. b % 128) b refl byte

pub bit_and-opcode : (b : ℕ) → b < 256 → bit_and b 15 ≡ b % 16
bit_and-opcode b byte = tabled 256 (λ b. bit_and b 15) (λ b. b % 16) b refl byte

pub bit_and-reserved : (b : ℕ) → b < 256 → bit_and b 112 ≡ b / 16 % 8 * 16
bit_and-reserved b byte = tabled 256 (λ b. bit_and b 112) (λ b. b / 16 % 8 * 16) b refl byte

pub bit_and-high : (b : ℕ) → b < 256 → bit_and b 128 ≡ b / 128 * 128
bit_and-high b byte = tabled 256 (λ b. bit_and b 128) (λ b. b / 128 * 128) b refl byte

pub bit_or-high : (n : ℕ) → n < 128 → bit_or 128 n ≡ 128 + n
bit_or-high n small = tabled 128 (λ n. bit_or 128 n) (λ n. 128 + n) n refl small

pub bit_or-zero : (n : ℕ) → n < 128 → bit_or 0 n ≡ n
bit_or-zero n small = tabled 128 (λ n. bit_or 0 n) (λ n. n) n refl small

-- The lowest digit of an exclusive or, on any count of digits that is enough.
abbrev xor_digits : ℕ → ℕ → ℕ → ℕ
xor_digits count a b = digits (λ b. b) differ count a b

xor_digits-same : (m n a b : ℕ) → a ≤ m → a ≤ n → xor_digits m a b ≡ xor_digits n a b
xor_digits-same zero zero a b p q = refl
xor_digits-same zero (suc n) zero b p q = refl
xor_digits-same zero (suc n) (suc a) b p q = absurd (omega arith)
xor_digits-same (suc m) zero zero b p q = refl
xor_digits-same (suc m) zero (suc a) b p q = absurd (omega arith)
xor_digits-same (suc m) (suc n) zero b p q = refl
xor_digits-same (suc m) (suc n) (suc a) b p q =
    omega (arith, xor_digits-same m n (suc a / 2) (b / 2) (omega arith) (omega arith))

differ-digits : (a b : ℕ) → a < 2 → b < 2 → differ a b ≡ (a + b) % 2
differ-digits zero zero p q = refl
differ-digits zero (suc zero) p q = refl
differ-digits (suc zero) zero p q = refl
differ-digits (suc zero) (suc zero) p q = refl
differ-digits (suc (suc a)) b p q = absurd (omega arith)
differ-digits a (suc (suc b)) p q = absurd (omega arith)

bit_xor-halves : (a b : ℕ) → bit_xor a b ≡ bit_xor (a / 2) (b / 2) * 2 + (a + b) % 2
bit_xor-halves zero b = omega (arith, bit_xor-bitwise 0 b, bit_xor-bitwise 0 (b / 2))
bit_xor-halves (suc a) b = omega (
  arith,
  bit_xor-bitwise (suc a) b,
  bit_xor-bitwise (suc a / 2) (b / 2),
  xor_digits-same a (suc a / 2) (suc a / 2) (b / 2) (omega arith) (omega arith),
  differ-digits (suc a % 2) (b % 2) (omega arith) (omega arith),
)

xor_twice : (n a b : ℕ) → a ≤ n → b ≤ n → bit_xor (bit_xor a b) b ≡ a
xor_twice zero zero zero p q = refl
xor_twice zero (suc a) b p q = absurd (omega arith)
xor_twice zero a (suc b) p q = absurd (omega arith)
xor_twice (suc n) a b p q = omega (
  arith,
  bit_xor-halves (bit_xor a b) b,
  bit_xor-halves a b,
  half,
  xor_twice n (a / 2) (b / 2) (omega arith) (omega arith),
)
  where
    half : bit_xor (bit_xor a b / 2) (b / 2) ≡ bit_xor (bit_xor (a / 2) (b / 2)) (b / 2)
    half = ap (λ c. bit_xor c (b / 2)) (omega (arith, bit_xor-halves a b))

-- Exclusive or with the same number twice gives the first back.
pub bit_xor-twice : (a b : ℕ) → bit_xor (bit_xor a b) b ≡ a
bit_xor-twice a b = xor_twice (a + b) a b (omega arith) (omega arith)
