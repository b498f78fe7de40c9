-- ===== src/Image/Png/Walk.antt =====
-- scripts/desktop-image-mcp.mjs, the loop of `inspectPng`, on chunks of the PNG format.
use codex_official_bridge.Prelude.{
  ℕ, zero, suc, ◌+◌, ◌-◌, ◌≤◌, ◌<◌, ◌≡◌, sym, ap, ◌∙◌, Bool, true, false, ◌&&◌, ◌||◌, List, [], ◌∷◌,
  ◌++◌, append_assoc, length, length-append, ltb, nat_eq, arith, All, if_false, elim_false,
  elim_true,
}
use mathlib.Core.Bool.{or-false, or_assoc}
use codex_official_bridge.Codes.{Codes, codes, same_codes}
use codex_official_bridge.Image.{Outcome, done, ◌>>=◌}
use codex_official_bridge.Image.Png.{read_u32, ascii4, incomplete, walk}
use codex_official_bridge.Image.Png.Chunks.{
  Chunk, type_of, chunk_bytes, chunks_bytes, end_chunk, is_data, has_data, IsInner, read_u32-append,
  ascii4-chunk, chunk_bytes-append, length-chunk_bytes,
}

pub bind_done :
    {A B : Type 0} (m : Outcome A) (a : A) (f : A → Outcome B) → m ≡ done a → m >>= f ≡ f a
unfolding ◌>>=◌
bind_done m a f e = rw e

-- One round of the loop, at a whole chunk.
walk-next :
    (fuel offset : ℕ) (seen : Bool) (buffer type : Codes) (size : ℕ)
    → offset + (12 + size) ≤ length buffer
    → read_u32 offset buffer ≡ done size
    → ascii4 (offset + 4) buffer ≡ type
    → same_codes type (codes "IEND") ≡ false
    → walk (suc fuel) offset seen buffer
      ≡ walk fuel (offset + (12 + size)) (seen || same_codes type (codes "IDAT")) buffer
unfolding walk ◌>>=◌
walk-next fuel offset seen buffer type size fits r t inner =
    if_false _ _ _ longer
    ∙ bind_done _ _ _ r
    ∙ elim_false _ incomplete _ whole
    ∙ elim_false _
        (done (
          seen || same_codes (ascii4 (offset + 4) buffer) (codes "IDAT"),
          nat_eq size 0 && nat_eq (offset + 12) (length buffer),
        ))
        _ (ap (λ letters. same_codes letters (codes "IEND")) t ∙ inner)
    ∙ ap
        (λ letters.
          walk fuel (offset + (12 + size)) (seen || same_codes letters (codes "IDAT")) buffer)
        t
  where
    longer : ltb (length buffer) (offset + 12) ≡ false
    longer = ground (arith, fits)

    whole : ltb (length buffer - offset - 12) size ≡ false
    whole = ground (arith, fits)

walk-last :
    (fuel offset : ℕ) (seen : Bool) (buffer : Codes)
    → offset + 12 ≡ length buffer
    → read_u32 offset buffer ≡ done 0
    → ascii4 (offset + 4) buffer ≡ codes "IEND"
    → walk (suc fuel) offset seen buffer ≡ done (seen, true)
unfolding walk ◌>>=◌
walk-last fuel offset seen buffer fits r t =
    if_false _ _ _ longer
    ∙ bind_done _ _ _ r
    ∙ elim_false _ incomplete _ whole
    ∙ elim_true _ _
        (walk fuel (offset + (12 + 0))
          (seen || same_codes (ascii4 (offset + 4) buffer) (codes "IDAT")) buffer)
        (ap (λ letters. same_codes letters (codes "IEND")) t)
    ∙ ap
        (λ letters.
          done (seen || same_codes letters (codes "IDAT"), nat_eq (offset + 12) (length buffer)))
        t
    ∙ ap (λ b. done (b, nat_eq (offset + 12) (length buffer))) (or-false seen)
    ∙ ap (λ b. done (seen, b)) ends
  where
    longer : ltb (length buffer) (offset + 12) ≡ false
    longer = ground (arith, fits)

    whole : ltb (length buffer - offset - 12) 0 ≡ false
    whole = ground (arith, fits)

    ends : nat_eq (offset + 12) (length buffer) ≡ true
    ends = ground (arith, fits)

-- The loop over chunks that no end is among, and then the end.
pub walk-chunks :
    (fuel : ℕ) (before : Codes) (seen : Bool) (cs : List Chunk) (crc : ℕ × ℕ × ℕ × ℕ)
    → All IsInner cs
    → length cs < fuel
    → walk fuel (length before) seen (before ++ chunks_bytes cs (chunk_bytes (end_chunk crc) []))
      ≡ done (seen || has_data cs, true)
walk-chunks zero before seen cs crc inner enough = absurd (omega arith)
walk-chunks (suc fuel) before seen [] crc inner enough =
    walk-last fuel (length before) seen (before ++ chunk_bytes (end_chunk crc) [])
      (omega (arith, length-append before (chunk_bytes (end_chunk crc) [])))
      (read_u32-append before 0 _ (omega arith))
      (ascii4-chunk before (end_chunk crc) [] (omega arith, omega arith, omega arith, omega arith))
    ∙ ap (λ b. done (b, true)) (sym (or-false seen))
walk-chunks (suc fuel) before seen (c ∷ cs) crc ((small, a, b, d, e, n), inner) enough =
    walk-next fuel (length before) seen (before ++ chunk_bytes c rest) (type_of c) size
      (omega (arith, length-append before (chunk_bytes c rest), length-chunk_bytes c rest))
      (read_u32-append before size _ small) (ascii4-chunk before c rest (a, b, d, e)) n
    ∙ ap (λ o. walk fuel o (seen || is_data c) (before ++ chunk_bytes c rest)) behind
    ∙ ap (λ buffer. walk fuel (length next) (seen || is_data c) buffer) regrouped
    ∙ walk-chunks fuel next (seen || is_data c) cs crc inner (omega (arith, enough))
    ∙ ap (λ b. done (b, true)) (or_assoc seen (is_data c) (has_data cs))
  where
    size : ℕ
    size = length c.content

    rest : Codes
    rest = chunks_bytes cs (chunk_bytes (end_chunk crc) [])

    next : Codes
    next = before ++ chunk_bytes c []

    behind : length before + (12 + size) ≡ length next
    behind = omega (arith, length-append before (chunk_bytes c []), length-chunk_bytes c [])

    regrouped : before ++ chunk_bytes c rest ≡ next ++ rest
    regrouped =
        ap (λ bytes. before ++ bytes) (sym (chunk_bytes-append c rest))
        ∙ sym (append_assoc before (chunk_bytes c []) rest)
