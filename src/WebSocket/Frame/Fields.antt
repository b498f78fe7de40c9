-- ===== src/WebSocket/Frame/Fields.antt =====
-- scripts/verify-websocket.mjs: what `frameDecoder` reads in the parts that `encodeFrame` writes.
use Prim.Native.Nat.{bit_and, bit_or}
use codex_official_bridge.Prelude.{
  ℕ, suc, ◌+◌, ◌*◌, ◌/◌, ◌%◌, ◌^◌, ◌≤◌, ◌<◌, ◌≡◌, refl, ap, ap₂, sym, ◌∙◌, Bool, true, false, not,
  ◌⊎◌, inl, inr, Option, none, some, [], ◌∷◌, ◌++◌, append_assoc, length, length-append, ltb,
  nat_eq, if◌then◌else◌, if_false, arith,
}
use codex_official_bridge.Bits.{
  bit_and-low, bit_and-opcode, bit_and-reserved, bit_and-high, bit_or-high, bit_or-zero,
  bit_xor-twice,
}
use codex_official_bridge.Codes.{Codes, take, drop}
use codex_official_bridge.Codes.Laws.{take-front, drop-front}
use codex_official_bridge.WebSocket.Frame.{
  Frame, byte_at, apply_mask, u16, u32, u64, short_length, long_length, flag, masked_bytes, is_some,
  big_endian, parsed, short, field, wide_field, length_field, body_at,
}

-- A byte of a flag and a number of seven bits.
flagged : (set : Bool) (n : ℕ) → n < 128 → bit_or (flag set) n ≡ flag set + n
flagged true n h = bit_or-high n h
flagged false n h = omega (arith, bit_or-zero n h)

flag-cases : (set : Bool) → (flag set ≡ 0) ⊎ (flag set ≡ 128)
flag-cases true = inr refl
flag-cases false = inl refl

flagged-byte : (set : Bool) (n : ℕ) → n < 128 → bit_or (flag set) n < 256
flagged-byte set n h = ground (arith, flagged set n h, flag-cases set)

pub low_part : (set : Bool) (n : ℕ) → n < 128 → bit_and (bit_or (flag set) n) 127 ≡ n
low_part set n h = ground (
  arith,
  bit_and-low (bit_or (flag set) n) (flagged-byte set n h),
  flagged set n h,
  flag-cases set,
)

pub high_part :
    (set : Bool) (n : ℕ) → n < 128 → not (nat_eq (bit_and (bit_or (flag set) n) 128) 0) ≡ set
high_part true n h =
    ground (arith, bit_and-high (bit_or 128 n) (flagged-byte true n h), flagged true n h)
high_part false n h =
    ground (arith, bit_and-high (bit_or 0 n) (flagged-byte false n h), flagged false n h)

pub opcode_part : (set : Bool) (n : ℕ) → n < 16 → bit_and (bit_or (flag set) n) 15 ≡ n
opcode_part set n h = ground (
  arith,
  bit_and-opcode (bit_or (flag set) n) (flagged-byte set n (omega arith)),
  flagged set n (omega arith),
  flag-cases set,
)

pub reserved_part : (set : Bool) (n : ℕ) → n < 16 → bit_and (bit_or (flag set) n) 112 ≡ 0
reserved_part set n h = ground (
  arith,
  bit_and-reserved (bit_or (flag set) n) (flagged-byte set n (omega arith)),
  flagged set n (omega arith),
  flag-cases set,
)

pub apply_mask-twice :
    (mask : Codes) (i : ℕ) (body : Codes) → apply_mask mask i (apply_mask mask i body) ≡ body
apply_mask-twice mask i [] = refl
apply_mask-twice mask i (b ∷ body) =
    ap (λ c. c ∷ apply_mask mask (suc i) (apply_mask mask (suc i) body))
      (bit_xor-twice b (byte_at (i % 4) mask))
    ∙ ap (λ rest. b ∷ rest) (apply_mask-twice mask (suc i) body)

pub length-apply_mask :
    (mask : Codes) (i : ℕ) (body : Codes) → length (apply_mask mask i body) ≡ length body
length-apply_mask mask i [] = refl
length-apply_mask mask i (b ∷ body) = ap suc (length-apply_mask mask (suc i) body)

big_endian-u32 : (k n : ℕ) → n < 4294967296 → big_endian k (u32 n) ≡ k * 4294967296 + n
big_endian-u32 k n small = omega arith

big_endian-u64 : (n : ℕ) → n < 2 ^ 64 → big_endian 0 (u64 n) ≡ n
big_endian-u64 n small =
    ap (λ k. big_endian k (u32 (n % 4294967296))) (big_endian-u32 0 (n / 4294967296) (omega arith))
    ∙ big_endian-u32 (0 * 4294967296 + n / 4294967296) (n % 4294967296) (omega arith)
    ∙ omega arith

-- A mask has four bytes.
abbrev pub IsMask : Option Codes → Type 0
IsMask none = Unit
IsMask (some mask) = length mask ≡ 4

module _ (max_bytes : ℕ) where
  module _ (n : ℕ) (tail : Codes) (small : n ≤ max_bytes) (wide : n < 2 ^ 64) where
    cases :
        (one two : Bool)
        → ltb n 126 ≡ one
        → ltb n 65536 ≡ two
        → length_field max_bytes
            (if one then n else (if two then 126 else 127))
            ((if one then [] else (if two then u16 n else u64 n)) ++ tail)
          ≡ field n tail
    unfolding length_field
    cases true two e f =
        if_false (nat_eq n 126) _ _ (ground (arith, e))
        ∙ if_false (nat_eq n 127) _ _ (ground (arith, e))
    cases false true e f =
        if_false (ltb (suc (suc (length tail))) 2) short _ (ground arith)
        ∙ ap (λ k. field k tail) (ground (arith, f))
    cases false false e f =
        if_false (ltb (length (u64 n ++ tail)) 8) short _ (ground arith)
        ∙ ap (λ k. wide_field max_bytes k tail) (big_endian-u64 n wide)
        ∙ if_false (ltb max_bytes n) _ _ (ground arith)

    pub length_field-long_length :
        length_field max_bytes (short_length n) (long_length n ++ tail) ≡ field n tail
    length_field-long_length = cases (ltb n 126) (ltb n 65536) refl refl

  -- The frame of a payload that was masked and of one that was not.
  pub body_at-masked_bytes :
      (opcode : ℕ) (fin : Bool) (mask : Option Codes) (payload tail : Codes)
      → IsMask mask
      → body_at max_bytes opcode fin
          (is_some mask)
          (length payload)
          (masked_bytes mask payload ++ tail)
        ≡ parsed
            (record { opcode = opcode; fin = fin; masked = is_some mask; payload = payload })
            tail
  body_at-masked_bytes opcode fin none payload tail h =
      if_false (ltb (length (payload ++ tail)) (length payload)) _ _
        (ground (arith, length-append payload tail))
      ∙ ap₂ (λ t d. parsed (record { opcode = opcode; fin = fin; masked = false; payload = t }) d)
          (take-front (length payload) payload tail refl)
          (drop-front (length payload) payload tail refl)
  body_at-masked_bytes opcode fin (some mask) payload tail h =
      ap (body_at max_bytes opcode fin true (length payload)) (append_assoc mask body tail)
      ∙ if_false (ltb (length (mask ++ (body ++ tail))) (4 + length payload)) _ _
          (ground (arith, h, length-append mask (body ++ tail), length-append body tail, same))
      ∙ ap₂
          (λ m d.
            parsed (made (apply_mask m 0 (take (length payload) d))) (drop (length payload) d))
          (take-front 4 mask (body ++ tail) (sym h)) (drop-front 4 mask (body ++ tail) (sym h))
      ∙ ap₂ (λ t d. parsed (made (apply_mask mask 0 t)) d)
          (take-front (length payload) body tail (sym same))
          (drop-front (length payload) body tail (sym same))
      ∙ ap (λ t. parsed (made t) tail) (apply_mask-twice mask 0 payload)
    where
      body : Codes
      body = apply_mask mask 0 payload

      same : length body ≡ length payload
      same = length-apply_mask mask 0 payload

      made : Codes → Frame
      made t = record { opcode = opcode; fin = fin; masked = true; payload = t }
