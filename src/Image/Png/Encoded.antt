-- ===== src/Image/Png/Encoded.antt =====
-- scripts/desktop-image-mcp.mjs, `inspectPng`, on the files that the PNG format describes.
use codex_official_bridge.Prelude.{
  ℕ, ◌≤◌, ◌≡◌, refl, ◌∙◌, Bool, true, false, ◌&&◌, List, [], ◌∷◌, ◌++◌, length, ltb, arith, All,
  if◌then◌else◌, if_false,
}
use codex_official_bridge.Codes.{Codes}
use codex_official_bridge.Image.{done}
use codex_official_bridge.Image.Png.{incomplete, signature, check_header, check_sizes, inspect_png}
use codex_official_bridge.Image.Png.Total.{IsDrawable}
use codex_official_bridge.Image.Png.Chunks.{
  Chunk, u32, chunk_bytes, chunks_bytes, end_chunk, has_data, IsInner, read_u32-append,
  length-chunk_bytes,
}
use codex_official_bridge.Image.Png.Walk.{bind_done, walk-chunks}

both_seen :
    {A : Type 0} (b : Bool) (x y : A)
    → elim (b && true) as (λ _. A) [ true ↦ x | false ↦ y ] ≡ (if b then x else y)
both_seen true x y = refl
both_seen false x y = refl

-- `IHDR`: the sides, and five bytes that the source does not read.
abbrev pub header_chunk : (width height : ℕ) → (extra : ℕ × ℕ × ℕ × ℕ × ℕ) → ℕ × ℕ × ℕ × ℕ → Chunk
header_chunk width height (a, b, c, d, e) crc = record {
  t0 = 73;
  t1 = 72;
  t2 = 68;
  t3 = 82;
  content = u32 width (u32 height (a ∷ b ∷ c ∷ d ∷ e ∷ []));
  crc = crc;
}

-- A PNG file: the signature, the header, other chunks, and the end.
abbrev pub png_file :
    (width height : ℕ)
    → (extra : ℕ × ℕ × ℕ × ℕ × ℕ) → (first last : ℕ × ℕ × ℕ × ℕ) → List Chunk
    → Codes
png_file width height extra first last cs =
    signature
    ++ chunks_bytes (header_chunk width height extra first ∷ cs) (chunk_bytes (end_chunk last) [])

count-chunks : (cs : List Chunk) (rest : Codes) → length cs ≤ length (chunks_bytes cs rest)
count-chunks [] rest = omega arith
count-chunks (c ∷ cs) rest =
    omega (arith, count-chunks cs rest, length-chunk_bytes c (chunks_bytes cs rest))

-- A file of chunks that the format describes, with sides within the bounds, is accepted with its
-- sides if a chunk of image data is among them, and is incomplete else.
pub inspect_png-png_file :
    (width height : ℕ) (extra : ℕ × ℕ × ℕ × ℕ × ℕ) (first last : ℕ × ℕ × ℕ × ℕ) (cs : List Chunk)
    → IsDrawable (record { width = width; height = height })
    → All IsInner cs
    → inspect_png (png_file width height extra first last cs)
      ≡ (if has_data cs then done (record { width = width; height = height }) else incomplete)
unfolding inspect_png
inspect_png-png_file width height extra first last cs drawable inner =
    bind_done _ tt _ checked
    ∙ bind_done _ width _ (read_u32-append before_width width _ (omega (arith, drawable)))
    ∙ bind_done _ height _
        (read_u32-append (before_width ++ u32 width []) height _ (omega (arith, drawable)))
    ∙ bind_done _ tt _ sized
    ∙ bind_done _ (has_data cs, true) _
        (walk-chunks (length (png_file width height extra first last cs)) signature false
          (header_chunk width height extra first ∷ cs) last
          ((omega arith, omega arith, omega arith, omega arith, omega arith, refl), inner)
          (omega (arith, count-chunks cs (chunk_bytes (end_chunk last) []))))
    ∙ both_seen (has_data cs) _ _
  where
    before_width : Codes
    before_width = signature ++ u32 13 (73 ∷ 72 ∷ 68 ∷ 82 ∷ [])

    sized : check_sizes width height ≡ done tt
    sized = ground (arith, drawable)

    checked : check_header (png_file width height extra first last cs) ≡ done tt
    checked =
        if_false _ _ _ longer ∙ bind_done _ 13 _ (read_u32-append signature 13 _ (omega arith))
      where
        longer : ltb (length (png_file width height extra first last cs)) 33 ≡ false
        longer = ground arith
