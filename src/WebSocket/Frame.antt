-- ===== src/WebSocket/Frame.antt =====
-- scripts/verify-websocket.mjs: `encodeFrame` and `frameDecoder`. The random mask is an input, and
-- `onFrame` a function that changes a state and may throw.
pub mod Stable
pub mod Chunks
pub mod Fields
pub mod RoundTrip
pub mod Bounds
use Prim.Native.Nat.{bit_and, bit_or, bit_xor}
use codex_official_bridge.Prelude.{
  ℕ, zero, suc, ◌+◌, ◌*◌, ◌/◌, ◌%◌, String, Bool, true, false, not, ◌&&◌, ◌||◌, Option, none, some,
  List, [], ◌∷◌, ◌++◌, length, ltb, leb, nat_eq, if◌then◌else◌,
}
use codex_official_bridge.Codes.{Codes, take, drop}

pub record Frame : Type 0 where
  pub opcode : ℕ
  pub fin : Bool
  pub masked : Bool
  pub payload : Codes

-- `mask[i]`, which reads as 0 behind the end.
abbrev pub byte_at : ℕ → Codes → ℕ
byte_at i [] = 0
byte_at zero (b ∷ bytes) = b
byte_at (suc i) (b ∷ bytes) = byte_at i bytes

-- `copy[i] ^= mask[i % 4]`, from an index on.
abbrev pub apply_mask : (mask : Codes) → (i : ℕ) → Codes → Codes
apply_mask mask i [] = []
apply_mask mask i (b ∷ bytes) = bit_xor b (byte_at (i % 4) mask) ∷ apply_mask mask (suc i) bytes

-- `writeUInt16BE` and `writeBigUInt64BE`.
abbrev pub u16 : ℕ → Codes
u16 n = n / 256 % 256 ∷ n % 256 ∷ []

abbrev pub u32 : ℕ → Codes
u32 n = n / 16777216 % 256 ∷ n / 65536 % 256 ∷ n / 256 % 256 ∷ n % 256 ∷ []

abbrev pub u64 : ℕ → Codes
u64 n = u32 (n / 4294967296) ++ u32 (n % 4294967296)

-- The second byte's length, and the bytes of a longer one.
abbrev pub short_length : ℕ → ℕ
short_length n = if ltb n 126 then n else (if ltb n 65536 then 126 else 127)

abbrev pub long_length : ℕ → Codes
long_length n = if ltb n 126 then [] else (if ltb n 65536 then u16 n else u64 n)

abbrev pub flag : Bool → ℕ
flag b = if b then 128 else 0

abbrev pub masked_bytes : Option Codes → Codes → Codes
masked_bytes none body = body
masked_bytes (some mask) body = mask ++ apply_mask mask 0 body

abbrev pub is_some : Option Codes → Bool
is_some none = false
is_some (some mask) = true

-- `encodeFrame(payload, { opcode, masked, fin })`, with the mask where `masked` is set.
unfoldable pub encode_frame :
    (payload : Codes) → (opcode : ℕ) → (mask : Option Codes) → (fin : Bool) → Codes
encode_frame payload opcode mask fin =
    bit_or (flag fin) opcode
    ∷ bit_or (flag (is_some mask)) (short_length (length payload))
    ∷ (long_length (length payload) ++ masked_bytes mask payload)

-- `readUInt16BE` and `readBigUInt64BE`, of as many bytes as there are.
abbrev pub big_endian : ℕ → Codes → ℕ
big_endian n [] = n
big_endian n (b ∷ bytes) = big_endian (n * 256 + b) bytes

-- What the buffer starts with: not a whole frame, an error, or a frame with the bytes behind it.
pub data Parsed : Type 0 where
  waits : Parsed
  breaks : (reason : String) → Parsed
  parsed : Frame → (rest : Codes) → Parsed

-- The length field and the bytes behind it.
pub data Field : Type 0 where
  short : Field
  large : Field
  field : (size : ℕ) → (rest : Codes) → Field

module _ (max_bytes : ℕ) where
  abbrev pub wide_field : (wide : ℕ) → (rest : Codes) → Field
  wide_field wide rest = if ltb max_bytes wide then large else field wide rest

  unfoldable pub length_field : (low : ℕ) → Codes → Field
  length_field low rest =
      if nat_eq low 126
      then if ltb (length rest) 2 then short else field (big_endian 0 (take 2 rest)) (drop 2 rest)
      else if nat_eq low 127
      then if ltb (length rest) 8
        then short
        else wide_field (big_endian 0 (take 8 rest)) (drop 8 rest)
      else field low rest

  abbrev pub body_at : (opcode : ℕ) → (fin masked : Bool) → (size : ℕ) → Codes → Parsed
  body_at opcode fin true size rest =
      if ltb (length rest) (4 + size)
      then waits
      else parsed
          (record {
            opcode = opcode;
            fin = fin;
            masked = true;
            payload = apply_mask (take 4 rest) 0 (take size (drop 4 rest));
          })
          (drop size (drop 4 rest))
  body_at opcode fin false size rest =
      if ltb (length rest) size
      then waits
      else parsed (record { opcode = opcode; fin = fin; masked = false; payload = take size rest })
          (drop size rest)

  abbrev pub after_length : (opcode : ℕ) → (fin masked : Bool) → Field → Parsed
  after_length opcode fin masked short = waits
  after_length opcode fin masked large = breaks "websocket_frame_too_large"
  after_length opcode fin masked (field size rest) =
      if ltb max_bytes size
      then breaks "websocket_frame_too_large"
      else if leb 8 opcode && (not fin || ltb 125 size)
      then breaks "invalid_control_frame"
      else body_at opcode fin masked size rest

  -- One round of the `while` loop, on the buffer.
  unfoldable pub parse_frame : Codes → Parsed
  unfolding length_field
  parse_frame [] = waits
  parse_frame (a ∷ []) = waits
  parse_frame (a ∷ b ∷ rest) =
      if not (nat_eq (bit_and a 112) 0)
      then breaks "unexpected_compressed_frame"
      else after_length (bit_and a 15) (not (nat_eq (bit_and a 128) 0))
          (not (nat_eq (bit_and b 128) 0)) (length_field (bit_and b 127) rest)

  module _ {S : Type 0} (on_frame : Frame → S → Option String × S) where
    -- The buffer and the state, a throw, or the end of the fuel.
    pub data Decoder : Type 0 where
      drained : (buffered : Codes) → (state : S) → Decoder
      thrown : (reason : String) → (state : S) → Decoder
      out_of_fuel : Decoder

    abbrev pub handled : Option String × S → (S → Decoder) → Decoder
    handled (none, s) next = next s
    handled (some reason, s) next = thrown reason s

    abbrev pub at_parsed : Codes → Parsed → S → (Codes → S → Decoder) → Decoder
    at_parsed buffer waits s next = drained buffer s
    at_parsed buffer (breaks reason) s next = thrown reason s
    at_parsed buffer (parsed frame rest) s next = handled (on_frame frame s) (next rest)

    -- The `while` loop; a round takes two bytes at least.
    unfoldable pub drain : (fuel : ℕ) → Codes → S → Decoder
    drain zero buffer s = out_of_fuel
    drain (suc fuel) buffer s = at_parsed buffer (parse_frame buffer) s (drain fuel)

    -- The function that `frameDecoder` returns; behind a throw the socket is destroyed.
    unfoldable pub on_chunk : Codes → Decoder → Decoder
    unfolding drain
    on_chunk chunk (drained buffered s) =
        drain (suc (length (buffered ++ chunk))) (buffered ++ chunk) s
    on_chunk chunk (thrown reason s) = thrown reason s
    on_chunk chunk out_of_fuel = out_of_fuel

    unfoldable pub on_chunks : List Codes → Decoder → Decoder
    on_chunks [] d = d
    on_chunks (chunk ∷ chunks) d = on_chunks chunks (on_chunk chunk d)
