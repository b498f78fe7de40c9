-- ===== src/WebSocket/Frame/Stable.antt =====
-- `frameDecoder` of scripts/verify-websocket.mjs: a round on a buffer that grows at its end.
use Prim.Native.Nat.{bit_and}
use codex_official_bridge.Prelude.{
  ℕ, ◌+◌, ◌≤◌, ◌≡◌, refl, ap, sym, ◌∙◌, Bool, true, false, not, ◌&&◌, ◌||◌, [], ◌∷◌, ◌++◌, length,
  length-append, ltb, leb, nat_eq, if◌then◌else◌, if_cases, if_false, subst, arith,
}
use codex_official_bridge.Codes.{Codes, take, drop}
use codex_official_bridge.Codes.Laws.{length-drop, take-append, drop-append}
use codex_official_bridge.WebSocket.Frame.{
  Parsed, waits, breaks, parsed, Field, short, large, field, wide_field, length_field, body_at,
  Frame, after_length, parse_frame, big_endian, apply_mask,
}

ltb-false : (a b : ℕ) → b ≤ a → ltb a b ≡ false
ltb-false a b h = ground arith

ltb-false_le : (a b : ℕ) → ltb a b ≡ false → b ≤ a
ltb-false_le a b e = ground (arith, e)

-- A test on the length that was passed is passed by a longer buffer.
longer : (xs ys : Codes) (n : ℕ) → n ≤ length xs → ltb (length (xs ++ ys)) n ≡ false
longer xs ys n h = ltb-false (length (xs ++ ys)) n (omega (arith, length-append xs ys))

-- What a round on a buffer says of a round on the buffer with more behind it.
abbrev pub Extends : (ys : Codes) → Parsed → Parsed → Type 0
Extends ys waits q = Unit
Extends ys (breaks reason) q = q ≡ breaks reason
Extends ys (parsed frame rest) q = q ≡ parsed frame (rest ++ ys)

abbrev FieldExtends : (ys : Codes) → Field → Field → Type 0
FieldExtends ys short q = Unit
FieldExtends ys large q = q ≡ large
FieldExtends ys (field size rest) q = q ≡ field size (rest ++ ys)

module _ (ys : Codes) (max_bytes : ℕ) where
  -- A field of a known count of bytes.
  module _ (n : ℕ) (make : (low rest : Codes) → Field)
      (grows : (low rest : Codes) → FieldExtends ys (make low rest) (make low (rest ++ ys))) where
    abbrev fixed : Codes → Field
    fixed rest = if ltb (length rest) n then short else make (take n rest) (drop n rest)

    fixed-Extends : (rest : Codes) → FieldExtends ys (fixed rest) (fixed (rest ++ ys))
    fixed-Extends rest =
        if_cases (λ f. FieldExtends ys f (fixed (rest ++ ys))) (ltb (length rest) n) short
          (make (take n rest) (drop n rest)) (λ _. tt)
          (λ e.
            let h = ltb-false_le (length rest) n e in
            subst (λ f. FieldExtends ys (make (take n rest) (drop n rest)) f)
              (sym (
                if_false (ltb (length (rest ++ ys)) n) short
                  (make (take n (rest ++ ys)) (drop n (rest ++ ys))) (longer rest ys n h)
                ∙ ap (λ t. make t (drop n (rest ++ ys))) (take-append n rest ys h)
                ∙ ap (make (take n rest)) (drop-append n rest ys h)))
              (grows (take n rest) (drop n rest)))

  both_fields :
      (b : Bool) (x y x2 y2 : Field)
      → FieldExtends ys x x2
      → FieldExtends ys y y2
      → FieldExtends ys (if b then x else y) (if b then x2 else y2)
  both_fields true x y x2 y2 h k = h
  both_fields false x y x2 y2 h k = k

  both :
      (b : Bool) (x y x2 y2 : Parsed)
      → Extends ys x x2
      → Extends ys y y2
      → Extends ys (if b then x else y) (if b then x2 else y2)
  both true x y x2 y2 h k = h
  both false x y x2 y2 h k = k

  length_field-Extends :
      (low : ℕ) (rest : Codes)
      → FieldExtends ys (length_field max_bytes low rest) (length_field max_bytes low (rest ++ ys))
  unfolding length_field
  length_field-Extends low rest =
      both_fields (nat_eq low 126) _ _ _ _
        (fixed-Extends 2 (λ t d. field (big_endian 0 t) d) (λ t d. refl) rest)
        (both_fields (nat_eq low 127) _ _ _ _
          (fixed-Extends 8 (λ t d. wide_field max_bytes (big_endian 0 t) d)
            (λ t d. both_fields (ltb max_bytes (big_endian 0 t)) _ _ _ _ refl refl) rest)
          refl)

  enough-Extends :
      (n : ℕ) (rest r : Codes) (frame : Frame) (p : Parsed)
      → (n ≤ length rest → p ≡ parsed frame (r ++ ys))
      → Extends ys
          (if ltb (length rest) n then waits else parsed frame r)
          (if ltb (length (rest ++ ys)) n then waits else p)
  enough-Extends n rest r frame p same =
      if_cases (λ q. Extends ys q (if ltb (length (rest ++ ys)) n then waits else p))
        (ltb (length rest) n) waits (parsed frame r) (λ _. tt)
        (λ e.
          let h = ltb-false_le (length rest) n e in
          if_false (ltb (length (rest ++ ys)) n) waits p (longer rest ys n h) ∙ same h)

  body_at-Extends :
      (opcode : ℕ) (fin masked : Bool) (size : ℕ) (rest : Codes)
      → Extends ys
          (body_at max_bytes opcode fin masked size rest)
          (body_at max_bytes opcode fin masked size (rest ++ ys))
  body_at-Extends opcode fin true size rest =
      enough-Extends (4 + size) rest (drop size (drop 4 rest)) _ _ (λ h.
        ap
          (λ mask.
            parsed (made (apply_mask mask 0 (take size (drop 4 (rest ++ ys)))))
              (drop size (drop 4 (rest ++ ys))))
          (take-append 4 rest ys (omega arith))
        ∙ ap (λ d. parsed (made (apply_mask (take 4 rest) 0 (take size d))) (drop size d))
            (drop-append 4 rest ys (omega arith))
        ∙ ap (λ t. parsed (made (apply_mask (take 4 rest) 0 t)) (drop size (drop 4 rest ++ ys)))
            (take-append size (drop 4 rest) ys (room h))
        ∙ ap (parsed (made (apply_mask (take 4 rest) 0 (take size (drop 4 rest)))))
            (drop-append size (drop 4 rest) ys (room h)))
    where
      made : Codes → Frame
      made body = record { opcode = opcode; fin = fin; masked = true; payload = body }

      room : 4 + size ≤ length rest → size ≤ length (drop 4 rest)
      room h = omega (arith, length-drop 4 rest)
  body_at-Extends opcode fin false size rest = enough-Extends size rest (drop size rest) _ _ (λ h.
      ap (λ t. parsed (made t) (drop size (rest ++ ys))) (take-append size rest ys h)
      ∙ ap (parsed (made (take size rest))) (drop-append size rest ys h))
    where
      made : Codes → Frame
      made body = record { opcode = opcode; fin = fin; masked = false; payload = body }

  after_length-Extends :
      (opcode : ℕ) (fin masked : Bool) (f f2 : Field)
      → FieldExtends ys f f2
      → Extends ys
          (after_length max_bytes opcode fin masked f)
          (after_length max_bytes opcode fin masked f2)
  after_length-Extends opcode fin masked short f2 h = tt
  after_length-Extends opcode fin masked large f2 h =
      ap (after_length max_bytes opcode fin masked) h
  after_length-Extends opcode fin masked (field size rest) f2 h =
      subst
        (λ g.
          Extends ys (after_length max_bytes opcode fin masked (field size rest))
            (after_length max_bytes opcode fin masked g))
        (sym h)
        (both (ltb max_bytes size) _ _ _ _ refl (
          both (leb 8 opcode && (not fin || ltb 125 size)) _ _ _ _ refl
            (body_at-Extends opcode fin masked size rest)))

  -- An error and a frame do not depend on what comes behind.
  pub parse_frame-Extends :
      (buffer : Codes)
      → Extends ys (parse_frame max_bytes buffer) (parse_frame max_bytes (buffer ++ ys))
  unfolding parse_frame
  parse_frame-Extends [] = tt
  parse_frame-Extends (a ∷ []) = tt
  parse_frame-Extends (a ∷ b ∷ rest) =
      both (not (nat_eq (bit_and a 112) 0)) _ _ _ _ refl
        (after_length-Extends _ _ _ _ _ (length_field-Extends (bit_and b 127) rest))
