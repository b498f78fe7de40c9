-- ===== src/WebSocket/Frame/Chunks.antt =====
-- `frameDecoder` of scripts/verify-websocket.mjs: its loop ends, and the cuts between the chunks
-- make no difference.
use Prim.Native.Nat.{bit_and}
use codex_official_bridge.Prelude.{
  ℕ, zero, suc, ◌+◌, ◌<◌, ◌≡◌, refl, ap, sym, ◌∙◌, Bool, true, false, not, ◌&&◌, ◌||◌, String,
  Option, none, some, List, [], ◌∷◌, ◌++◌, append-nil, append_assoc, length, ltb, leb, nat_eq,
  if_both, arith,
}
use codex_official_bridge.Codes.{Codes, take, drop}
use codex_official_bridge.Codes.Laws.{length-drop}
use codex_official_bridge.WebSocket.Frame.{
  Frame, Parsed, waits, breaks, parsed, Field, short, large, field, length_field, body_at,
  after_length, parse_frame, big_endian, Decoder, drained, handled, at_parsed, drain, on_chunk,
  on_chunks,
}
use codex_official_bridge.WebSocket.Frame.Stable.{Extends, parse_frame-Extends}

abbrev pub concat : List Codes → Codes
concat [] = []
concat (chunk ∷ chunks) = chunk ++ concat chunks

-- What stays in the buffer is shorter than a number.
abbrev pub Shorter : ℕ → Parsed → Type 0
Shorter n waits = Unit
Shorter n (breaks reason) = Unit
Shorter n (parsed frame rest) = length rest < n

abbrev FieldShorter : ℕ → Field → Type 0
FieldShorter n short = Unit
FieldShorter n large = Unit
FieldShorter n (field size rest) = length rest < n

module _ (max_bytes : ℕ) where
  length_field-Shorter :
      (n low : ℕ) (rest : Codes)
      → length rest < n
      → FieldShorter n (length_field max_bytes low rest)
  unfolding length_field
  length_field-Shorter n low rest h =
      if_both (FieldShorter n) (nat_eq low 126) _ _
        (if_both (FieldShorter n) (ltb (length rest) 2) _ _ tt
          (omega (arith, h, length-drop 2 rest)))
        (if_both (FieldShorter n) (nat_eq low 127) _ _
          (if_both (FieldShorter n) (ltb (length rest) 8) _ _ tt (
            if_both (FieldShorter n) (ltb max_bytes (big_endian 0 (take 8 rest))) _ _ tt
              (omega (arith, h, length-drop 8 rest))))
          h)

  after_length-Shorter :
      (n opcode : ℕ) (fin masked : Bool) (f : Field)
      → FieldShorter n f
      → Shorter n (after_length max_bytes opcode fin masked f)
  after_length-Shorter n opcode fin masked short h = tt
  after_length-Shorter n opcode fin masked large h = tt
  after_length-Shorter n opcode fin masked (field size rest) h =
      if_both (Shorter n) (ltb max_bytes size) _ _ tt
        (if_both (Shorter n) (leb 8 opcode && (not fin || ltb 125 size)) _ _ tt (body masked))
    where
      body : (masked : Bool) → Shorter n (body_at max_bytes opcode fin masked size rest)
      body true =
          if_both (Shorter n) (ltb (length rest) (4 + size)) _ _ tt
            (omega (arith, h, length-drop size (drop 4 rest), length-drop 4 rest))
      body false =
          if_both (Shorter n) (ltb (length rest) size) _ _ tt
            (omega (arith, h, length-drop size rest))

  pub parse_frame-Shorter :
      (buffer : Codes) → Shorter (length buffer) (parse_frame max_bytes buffer)
  unfolding parse_frame
  parse_frame-Shorter [] = tt
  parse_frame-Shorter (a ∷ []) = tt
  parse_frame-Shorter (a ∷ b ∷ rest) =
      if_both (Shorter (suc (suc (length rest)))) (not (nat_eq (bit_and a 112) 0)) _ _ tt
        (after_length-Shorter _ _ _ _ _ (length_field-Shorter _ (bit_and b 127) rest (omega arith)))

  module _ {S : Type 0} (on_frame : Frame → S → Option String × S) where
    pub handled-same :
        (out : Option String × S) (f g : S → Decoder max_bytes on_frame)
        → ((s : S) → f s ≡ g s)
        → handled max_bytes on_frame out f ≡ handled max_bytes on_frame out g
    handled-same (none, s) f g same = same s
    handled-same (some reason, s) f g same = refl

    at_parsed-same :
        (buffer : Codes) (p : Parsed) (s : S) (n : ℕ) (f g : Codes → S → Decoder max_bytes on_frame)
        → Shorter n p
        → ((rest : Codes) (s : S) → length rest < n → f rest s ≡ g rest s)
        → at_parsed max_bytes on_frame buffer p s f ≡ at_parsed max_bytes on_frame buffer p s g
    at_parsed-same buffer waits s n f g h same = refl
    at_parsed-same buffer (breaks reason) s n f g h same = refl
    at_parsed-same buffer (parsed frame rest) s n f g h same =
        handled-same (on_frame frame s) (f rest) (g rest) (λ t. same rest t h)

    drain-fuel :
        (m n : ℕ) (buffer : Codes) (s : S)
        → length buffer < m
        → length buffer < n
        → drain max_bytes on_frame m buffer s ≡ drain max_bytes on_frame n buffer s
    unfolding drain
    drain-fuel zero n buffer s p q = absurd (omega arith)
    drain-fuel (suc m) zero buffer s p q = absurd (omega arith)
    drain-fuel (suc m) (suc n) buffer s p q =
        at_parsed-same buffer (parse_frame max_bytes buffer) s (length buffer) _ _
          (parse_frame-Shorter buffer)
          (λ rest t h. drain-fuel m n rest t (omega arith) (omega arith))

    -- The loop with enough fuel.
    abbrev pub run : Codes → S → Decoder max_bytes on_frame
    run buffer s = drain max_bytes on_frame (suc (length buffer)) buffer s

    pub run-at_parsed :
        (buffer : Codes) (s : S)
        → run buffer s ≡ at_parsed max_bytes on_frame buffer (parse_frame max_bytes buffer) s run
    unfolding drain
    run-at_parsed buffer s =
        at_parsed-same buffer (parse_frame max_bytes buffer) s (length buffer) _ _
          (parse_frame-Shorter buffer)
          (λ rest t h. drain-fuel (length buffer) (suc (length rest)) rest t h (omega arith))

    handled-then :
        (ys : Codes) (out : Option String × S) (f g : S → Decoder max_bytes on_frame)
        → ((s : S) → f s ≡ on_chunk max_bytes on_frame ys (g s))
        → handled max_bytes on_frame out f
          ≡ on_chunk max_bytes on_frame ys (handled max_bytes on_frame out g)
    unfolding on_chunk
    handled-then ys (none, s) f g same = same s
    handled-then ys (some reason, s) f g same = refl

    -- A round on the longer buffer, where the rounds behind it agree.
    round-append :
        (buffer ys : Codes) (s : S) (p : Parsed)
        → Extends ys p (parse_frame max_bytes (buffer ++ ys))
        → Shorter (length buffer) p
        → ((rest : Codes) (t : S)
            → length rest < length buffer
            → run (rest ++ ys) t ≡ on_chunk max_bytes on_frame ys (run rest t))
        → run (buffer ++ ys) s
          ≡ on_chunk max_bytes on_frame ys (at_parsed max_bytes on_frame buffer p s run)
    unfolding on_chunk
    round-append buffer ys s waits e k behind = refl
    round-append buffer ys s (breaks reason) e k behind =
        run-at_parsed (buffer ++ ys) s
        ∙ ap (λ p. at_parsed max_bytes on_frame (buffer ++ ys) p s run) e
    round-append buffer ys s (parsed frame rest) e k behind =
        run-at_parsed (buffer ++ ys) s
        ∙ ap (λ p. at_parsed max_bytes on_frame (buffer ++ ys) p s run) e
        ∙ handled-then ys (on_frame frame s) (run (rest ++ ys)) (run rest) (λ t. behind rest t k)

    run-append :
        (fuel : ℕ) (buffer ys : Codes) (s : S)
        → length buffer < fuel
        → run (buffer ++ ys) s ≡ on_chunk max_bytes on_frame ys (run buffer s)
    run-append zero buffer ys s h = absurd (omega arith)
    run-append (suc fuel) buffer ys s h =
        round-append buffer ys s (parse_frame max_bytes buffer)
          (parse_frame-Extends ys max_bytes buffer) (parse_frame-Shorter buffer)
          (λ rest t k. run-append fuel rest ys t (omega arith))
        ∙ ap (on_chunk max_bytes on_frame ys) (sym (run-at_parsed buffer s))

    on_chunks-run :
        (chunks : List Codes) (buffer : Codes) (s : S)
        → on_chunks max_bytes on_frame chunks (run buffer s) ≡ run (buffer ++ concat chunks) s
    unfolding on_chunks
    on_chunks-run [] buffer s = ap (λ b. run b s) (sym (append-nil buffer))
    on_chunks-run (chunk ∷ chunks) buffer s =
        ap (on_chunks max_bytes on_frame chunks)
          (sym (run-append (suc (length buffer)) buffer chunk s (omega arith)))
        ∙ on_chunks-run chunks (buffer ++ chunk) s
        ∙ ap (λ b. run b s) (append_assoc buffer chunk (concat chunks))

    -- Chunks that come in one by one are decoded as the concatenation of them that comes in at
    -- once: to the same buffer and the same state behind the calls of `onFrame`, or to the same
    -- throw; for every sequence of bytes, well formed or not.
    pub on_chunks-on_chunk :
        (chunks : List Codes) (s : S)
        → on_chunks max_bytes on_frame chunks (drained [] s)
          ≡ on_chunk max_bytes on_frame (concat chunks) (drained [] s)
    unfolding on_chunk drain parse_frame
    on_chunks-on_chunk chunks s = on_chunks-run chunks [] s
