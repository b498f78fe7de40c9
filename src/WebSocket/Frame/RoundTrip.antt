-- ===== src/WebSocket/Frame/RoundTrip.antt =====
-- scripts/verify-websocket.mjs: frames that `encodeFrame` writes and `frameDecoder` reads, however
-- the bytes are cut into chunks.
use codex_official_bridge.Prelude.{
  ℕ, ◌^◌, ◌≤◌, ◌<◌, ◌≡◌, refl, ap, ap₂, ◌∙◌, Bool, true, false, not, ◌&&◌, ◌||◌, ◌⊎◌, String,
  Option, List, [], ◌∷◌, ◌++◌, append_assoc, map, length, All, ltb, leb, nat_eq, if_false, arith,
}
use Prim.Native.Nat.{bit_and, bit_or}
use codex_official_bridge.Codes.{Codes}
use codex_official_bridge.WebSocket.Frame.{
  Frame, Field, is_some, flag, masked_bytes, short_length, long_length, encode_frame, parsed,
  length_field, after_length, parse_frame, Decoder, drained, handled, at_parsed, drain, on_chunk,
  on_chunks,
}
use codex_official_bridge.WebSocket.Frame.Chunks.{
  concat, handled-same, run, run-at_parsed, on_chunks-on_chunk,
}
use codex_official_bridge.WebSocket.Frame.Fields.{
  low_part, high_part, opcode_part, reserved_part, IsMask, length_field-long_length,
  body_at-masked_bytes,
}

-- What `encodeFrame` is called with.
pub record Sent : Type 0 where
  pub payload : Codes
  pub opcode : ℕ
  pub mask : Option Codes
  pub fin : Bool

abbrev pub bytes_of : Sent → Codes
bytes_of s = encode_frame s.payload s.opcode s.mask s.fin

abbrev pub frame_of : Sent → Frame
frame_of s = record { opcode = s.opcode; fin = s.fin; masked = is_some s.mask; payload = s.payload }

-- A frame of the protocol within the decoder's bound: four bits of operation, and a control frame
-- is short and whole.
abbrev pub IsSendable : (max_bytes : ℕ) → Sent → Type 0
IsSendable max_bytes s =
    (s.opcode < 16)
    × (length s.payload ≤ max_bytes)
    × (length s.payload < 2 ^ 64)
    × ((s.opcode < 8) ⊎ ((s.fin ≡ true) × (length s.payload ≤ 125)))
    × IsMask s.mask

short_length-small : (n : ℕ) → short_length n < 128
short_length-small n = ground arith

control_false :
    (opcode n : ℕ) (fin : Bool)
    → (opcode < 8) ⊎ ((fin ≡ true) × (n ≤ 125))
    → (leb 8 opcode && (not fin || ltb 125 n)) ≡ false
control_false opcode n fin h = ground (arith, h)

module _ (max_bytes : ℕ) where
  parse_frame-encode_frame :
      (s : Sent) (rest : Codes)
      → IsSendable max_bytes s
      → parse_frame max_bytes (bytes_of s ++ rest) ≡ parsed (frame_of s) rest
  unfolding parse_frame encode_frame
  parse_frame-encode_frame s rest (op, small, wide, control, mask) =
      if_false (not (nat_eq (bit_and (bit_or (flag s.fin) s.opcode) 112) 0)) _ _
        (ap (λ b. not (nat_eq b 0)) (reserved_part s.fin s.opcode op))
      ∙ ap
          (λ k.
            after_length max_bytes k (not (nat_eq (bit_and (bit_or (flag s.fin) s.opcode) 128) 0))
              second at_length)
          (opcode_part s.fin s.opcode op)
      ∙ ap₂ (λ f m. after_length max_bytes s.opcode f m at_length)
          (high_part s.fin s.opcode (omega (arith, op)))
          (high_part (is_some s.mask) (short_length n) (short_length-small n))
      ∙ ap (after_length max_bytes s.opcode s.fin (is_some s.mask)) (
          ap₂ (length_field max_bytes)
            (low_part (is_some s.mask) (short_length n) (short_length-small n))
            (append_assoc (long_length n) (masked_bytes s.mask s.payload) rest)
          ∙ length_field-long_length max_bytes n (masked_bytes s.mask s.payload ++ rest) small wide)
      ∙ if_false (ltb max_bytes n) _ _ (ground (arith, small))
      ∙ if_false (leb 8 s.opcode && (not s.fin || ltb 125 n)) _ _
          (control_false s.opcode n s.fin control)
      ∙ body_at-masked_bytes max_bytes s.opcode s.fin s.mask s.payload rest mask
    where
      n : ℕ
      n = length s.payload

      second : Bool
      second = not (nat_eq (bit_and (bit_or (flag (is_some s.mask)) (short_length n)) 128) 0)

      at_length : Field
      at_length =
          length_field max_bytes (bit_and (bit_or (flag (is_some s.mask)) (short_length n)) 127)
            ((long_length n ++ masked_bytes s.mask s.payload) ++ rest)

  module _ {S : Type 0} (on_frame : Frame → S → Option String × S) where
    -- `onFrame` on one frame behind the other, up to the first throw.
    abbrev pub follow : List Frame → S → Decoder max_bytes on_frame
    follow [] s = drained [] s
    follow (frame ∷ frames) s = handled max_bytes on_frame (on_frame frame s) (follow frames)

    run-bytes_of :
        (sent : List Sent) (s : S)
        → All (IsSendable max_bytes) sent
        → run max_bytes on_frame (concat (map bytes_of sent)) s ≡ follow (map frame_of sent) s
    unfolding drain parse_frame
    run-bytes_of [] s h = refl
    run-bytes_of (x ∷ sent) s (p, h) =
        run-at_parsed max_bytes on_frame (bytes_of x ++ concat (map bytes_of sent)) s
        ∙ ap
            (λ q.
              at_parsed max_bytes on_frame (bytes_of x ++ concat (map bytes_of sent)) q s
                (run max_bytes on_frame))
            (parse_frame-encode_frame x (concat (map bytes_of sent)) p)
        ∙ handled-same max_bytes on_frame (on_frame (frame_of x) s) _ _ (λ t. run-bytes_of sent t h)

    -- The frames that are encoded, each within the bounds of the protocol and of the decoder, come
    -- out of the decoder as they went in and in their order, up to the first of them on which
    -- `onFrame` throws, and leave no byte behind, whatever the chunks that their bytes arrive in
    -- and whatever the masks.
    pub on_chunks-encode_frame :
        (chunks : List Codes) (sent : List Sent) (s : S)
        → All (IsSendable max_bytes) sent
        → concat chunks ≡ concat (map bytes_of sent)
        → on_chunks max_bytes on_frame chunks (drained [] s) ≡ follow (map frame_of sent) s
    unfolding on_chunk
    on_chunks-encode_frame chunks sent s h e =
        on_chunks-on_chunk max_bytes on_frame chunks s
        ∙ ap (λ bytes. on_chunk max_bytes on_frame bytes (drained [] s)) e
        ∙ run-bytes_of sent s h
