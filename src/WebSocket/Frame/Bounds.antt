-- ===== src/WebSocket/Frame/Bounds.antt =====
-- `frameDecoder` of scripts/verify-websocket.mjs: what it keeps and what it passes on.
use Prim.Native.Nat.{bit_and}
use codex_official_bridge.Prelude.{
  ℕ, zero, suc, ◌+◌, ◌≤◌, ◌<◌, ◌≡◌, sym, subst, Bool, true, false, not, ◌&&◌, ◌||◌, ◌⊎◌, String,
  Option, none, some, List, [], ◌∷◌, ◌++◌, length, ltb, leb, nat_eq, if_both, if_cases, arith,
}
use codex_official_bridge.Codes.{Codes, take, drop}
use codex_official_bridge.Codes.Laws.{length-drop}
use codex_official_bridge.WebSocket.Frame.{
  Frame, Parsed, waits, breaks, parsed, Field, short, large, field, length_field, body_at,
  after_length, parse_frame, big_endian, Decoder, drained, thrown, out_of_fuel, handled, at_parsed,
  on_chunk, on_chunks,
}
use codex_official_bridge.WebSocket.Frame.Chunks.{Shorter, parse_frame-Shorter, run, run-at_parsed}
use codex_official_bridge.WebSocket.Frame.Fields.{length-apply_mask}

length-take : (n : ℕ) (p : Codes) → length (take n p) ≤ n
length-take zero p = omega arith
length-take (suc n) [] = omega arith
length-take (suc n) (c ∷ p) = omega (arith, length-take n p)

whole_control :
    (opcode n : ℕ) (fin : Bool)
    → (leb 8 opcode && (not fin || ltb 125 n)) ≡ false
    → (opcode < 8) ⊎ ((fin ≡ true) × (n ≤ 125))
whole_control opcode n fin e = ground (arith, e)

module _ (max_bytes : ℕ) where
  -- A payload within the bound, and a control frame that is whole and short.
  abbrev pub IsBounded : Frame → Type 0
  IsBounded f =
      (length f.payload ≤ max_bytes)
      × ((f.opcode < 8) ⊎ ((f.fin ≡ true) × (length f.payload ≤ 125)))

  -- Of a round on a buffer of a length: what stays in it, or the frame.
  abbrev Fits : ℕ → Parsed → Type 0
  Fits n waits = n < max_bytes + 14
  Fits n (breaks reason) = Unit
  Fits n (parsed frame rest) = IsBounded frame

  abbrev FieldFits : ℕ → Field → Type 0
  FieldFits n short = n < 8
  FieldFits n large = Unit
  FieldFits n (field size rest) = n ≤ length rest + 8

  length_field-Fits :
      (low : ℕ) (rest : Codes) → FieldFits (length rest) (length_field max_bytes low rest)
  unfolding length_field
  length_field-Fits low rest =
      if_both (FieldFits (length rest)) (nat_eq low 126) _ _
        (if_cases (FieldFits (length rest)) (ltb (length rest) 2) _ _ (λ e. ground (arith, e))
          (λ e. omega (arith, length-drop 2 rest)))
        (if_both (FieldFits (length rest)) (nat_eq low 127) _ _
          (if_cases (FieldFits (length rest)) (ltb (length rest) 8) _ _ (λ e. ground (arith, e))
            (λ e.
              if_both (FieldFits (length rest)) (ltb max_bytes (big_endian 0 (take 8 rest))) _ _ tt
                (omega (arith, length-drop 8 rest))))
          (omega arith))

  body_at-Fits :
      (n opcode : ℕ) (fin masked : Bool) (size : ℕ) (rest : Codes)
      → n ≤ length rest + 10
      → size ≤ max_bytes
      → (opcode < 8) ⊎ ((fin ≡ true) × (size ≤ 125))
      → Fits n (body_at max_bytes opcode fin masked size rest)
  body_at-Fits n opcode fin true size rest h k c =
      if_cases (Fits n) (ltb (length rest) (4 + size)) _ _ (λ e. ground (arith, e, h, k))
        (λ e. ground (
          arith,
          c,
          k,
          length-take size (drop 4 rest),
          length-apply_mask (take 4 rest) 0 (take size (drop 4 rest)),
        ))
  body_at-Fits n opcode fin false size rest h k c =
      if_cases (Fits n) (ltb (length rest) size) _ _ (λ e. ground (arith, e, h, k))
        (λ e. ground (arith, c, k, length-take size rest))

  after_length-Fits :
      (n opcode : ℕ) (fin masked : Bool) (f : Field)
      → FieldFits n f
      → Fits (suc (suc n)) (after_length max_bytes opcode fin masked f)
  after_length-Fits n opcode fin masked short h = omega arith
  after_length-Fits n opcode fin masked large h = tt
  after_length-Fits n opcode fin masked (field size rest) h =
      if_cases (Fits (suc (suc n))) (ltb max_bytes size) _ _ (λ _. tt)
        (λ e.
          if_cases (Fits (suc (suc n))) (leb 8 opcode && (not fin || ltb 125 size)) _ _ (λ _. tt)
            (λ c.
              body_at-Fits (suc (suc n)) opcode fin masked size rest (omega arith)
                (ground (arith, e)) (whole_control opcode size fin c)))

  parse_frame-Fits : (buffer : Codes) → Fits (length buffer) (parse_frame max_bytes buffer)
  unfolding parse_frame
  parse_frame-Fits [] = omega arith
  parse_frame-Fits (a ∷ []) = omega arith
  parse_frame-Fits (a ∷ b ∷ rest) =
      if_both (Fits (suc (suc (length rest)))) (not (nat_eq (bit_and a 112) 0)) _ _ tt
        (after_length-Fits (length rest) _ _ _ _ (length_field-Fits (bit_and b 127) rest))

  module _ {S : Type 0} (on_frame : Frame → S → Option String × S) (P Q : S → Type 0) where
    -- A decoder whose loop has ended: with a short buffer and a state of one property, or with a
    -- throw and a state of another.
    abbrev pub IsKept : Decoder max_bytes on_frame → Type 0
    IsKept (drained buffered s) = (length buffered < max_bytes + 14) × P s
    IsKept (thrown reason s) = Q s
    IsKept out_of_fuel = ⊥

    abbrev pub Handles : Option String × S → Type 0
    Handles (none, s) = P s
    Handles (some reason, s) = Q s

    module _ (breaks_off : (s : S) → P s → Q s)
        (keeps : (frame : Frame) (s : S) → IsBounded frame → P s → Handles (on_frame frame s)) where
      handled-IsKept :
          (out : Option String × S) (next : S → Decoder max_bytes on_frame)
          → Handles out
          → ((s : S) → P s → IsKept (next s))
          → IsKept (handled max_bytes on_frame out next)
      handled-IsKept (none, s) next p k = k s p
      handled-IsKept (some reason, s) next p k = p

      round-IsKept :
          (buffer : Codes) (p : Parsed) (s : S) (next : Codes → S → Decoder max_bytes on_frame)
          → Fits (length buffer) p
          → Shorter (length buffer) p
          → P s
          → ((rest : Codes) (t : S) → length rest < length buffer → P t → IsKept (next rest t))
          → IsKept (at_parsed max_bytes on_frame buffer p s next)
      round-IsKept buffer waits s next f h p k = (f, p)
      round-IsKept buffer (breaks reason) s next f h p k = breaks_off s p
      round-IsKept buffer (parsed frame rest) s next f h p k =
          handled-IsKept (on_frame frame s) (next rest) (keeps frame s f p) (λ t. k rest t h)

      run-IsKept :
          (fuel : ℕ) (buffer : Codes) (s : S)
          → length buffer < fuel
          → P s
          → IsKept (run max_bytes on_frame buffer s)
      run-IsKept zero buffer s h p = absurd (omega arith)
      run-IsKept (suc fuel) buffer s h p =
          subst IsKept (sym (run-at_parsed max_bytes on_frame buffer s)) (
            round-IsKept buffer (parse_frame max_bytes buffer) s (run max_bytes on_frame)
              (parse_frame-Fits buffer) (parse_frame-Shorter max_bytes buffer) p
              (λ rest t k. run-IsKept fuel rest t (omega arith)))

      pub on_chunk-IsKept :
          (chunk : Codes) (d : Decoder max_bytes on_frame)
          → IsKept d
          → IsKept (on_chunk max_bytes on_frame chunk d)
      unfolding on_chunk
      on_chunk-IsKept chunk (drained buffered s) (h, p) =
          run-IsKept (suc (length (buffered ++ chunk))) (buffered ++ chunk) s (omega arith) p
      on_chunk-IsKept chunk (thrown reason s) p = p
      on_chunk-IsKept chunk out_of_fuel p = absurd p

      -- On any chunks, from a decoder of which this holds: its loop ends; the bytes it waits with
      -- are fewer than the bound and fourteen more; and one property of the state holds at the end,
      -- or another at a throw. It is for a first property that gives the second, and for an
      -- `onFrame` each call of which gives the first or, with a throw, the second, where the first
      -- held before it and it gets a payload within the bound and, for a control frame, one that is
      -- whole and of 125 bytes at most.
      pub on_chunks-IsKept :
          (chunks : List Codes) (d : Decoder max_bytes on_frame)
          → IsKept d
          → IsKept (on_chunks max_bytes on_frame chunks d)
      unfolding on_chunks
      on_chunks-IsKept [] d h = h
      on_chunks-IsKept (chunk ∷ chunks) d h = on_chunks-IsKept chunks _ (on_chunk-IsKept chunk d h)
