-- ===== src/Image/Png/Chunks.antt =====
-- The chunks of the PNG format, as bytes, and what the reading functions of
-- scripts/desktop-image-mcp.mjs give on them.
use codex_official_bridge.Prelude.{
  ℕ, suc, ◌+◌, ◌/◌, ◌%◌, ◌<◌, ◌≡◌, refl, ap, ◌∙◌, Bool, false, ◌||◌, List, [], ◌∷◌, ◌++◌,
  append_assoc, length, length-append, arith, map,
}
use codex_official_bridge.Codes.{Codes, codes, same_codes, drop, take}
use codex_official_bridge.Image.{done}
use codex_official_bridge.Image.Png.{number, read_u32, ascii4}

-- A chunk: the four letters of its type, its data, and its four bytes of check sum, which the
-- source skips.
pub record Chunk : Type 0 where
  pub t0 : ℕ
  pub t1 : ℕ
  pub t2 : ℕ
  pub t3 : ℕ
  pub content : Codes
  pub crc : ℕ × ℕ × ℕ × ℕ

abbrev pub type_of : Chunk → Codes
type_of c = c.t0 ∷ c.t1 ∷ c.t2 ∷ c.t3 ∷ []

abbrev pub u32 : ℕ → Codes → Codes
u32 n rest = n / 16777216 % 256 ∷ n / 65536 % 256 ∷ n / 256 % 256 ∷ n % 256 ∷ rest

-- The chunk's bytes, in front of others.
abbrev pub chunk_bytes : Chunk → Codes → Codes
chunk_bytes c rest =
    let (x, y, z, w) = c.crc in
    u32 (length c.content) (c.t0 ∷ c.t1 ∷ c.t2 ∷ c.t3 ∷ (c.content ++ x ∷ y ∷ z ∷ w ∷ rest))

abbrev pub chunks_bytes : List Chunk → Codes → Codes
chunks_bytes [] rest = rest
chunks_bytes (c ∷ cs) rest = chunk_bytes c (chunks_bytes cs rest)

-- `IEND`, whose data are empty.
abbrev pub end_chunk : ℕ × ℕ × ℕ × ℕ → Chunk
end_chunk crc = record { t0 = 73; t1 = 69; t2 = 78; t3 = 68; content = []; crc = crc }

abbrev pub is_data : Chunk → Bool
is_data c = same_codes (type_of c) (codes "IDAT")

abbrev pub has_data : List Chunk → Bool
has_data [] = false
has_data (c ∷ cs) = is_data c || has_data cs

-- A length of four bytes, letters of ASCII, and not the end.
abbrev pub IsInner : Chunk → Type 0
IsInner c =
    (length c.content < 4294967296)
    × (c.t0 < 128)
    × (c.t1 < 128)
    × (c.t2 < 128)
    × (c.t3 < 128)
    × (same_codes (type_of c) (codes "IEND") ≡ false)

number-u32 : (n : ℕ) (rest : Codes) → n < 4294967296 → number (u32 n rest) ≡ done n
number-u32 n rest small = ap done (omega arith)

suc-length : (before : Codes) (k : ℕ) → suc (length before) + k ≡ suc (length before + k)
suc-length before k = omega arith

from_zero : (k : ℕ) → 0 + k ≡ k
from_zero k = omega arith

drop-append :
    (k : ℕ) (before rest : Codes) → drop (length before + k) (before ++ rest) ≡ drop k rest
drop-append k [] rest = ap (λ n. drop n rest) (from_zero k)
drop-append k (b ∷ before) rest =
    ap (λ n. drop n (b ∷ (before ++ rest))) (suc-length before k) ∙ drop-append k before rest

drop-length : (before rest : Codes) → drop (length before) (before ++ rest) ≡ rest
drop-length [] rest = refl
drop-length (b ∷ before) rest = drop-length before rest

pub read_u32-append :
    (before : Codes) (n : ℕ) (rest : Codes)
    → n < 4294967296
    → read_u32 (length before) (before ++ u32 n rest) ≡ done n
unfolding read_u32
read_u32-append before n rest small =
    ap number (drop-length before (u32 n rest)) ∙ number-u32 n rest small

pub ascii4-chunk :
    (before : Codes) (c : Chunk) (rest : Codes)
    → (c.t0 < 128) × (c.t1 < 128) × (c.t2 < 128) × (c.t3 < 128)
    → ascii4 (length before + 4) (before ++ chunk_bytes c rest) ≡ type_of c
ascii4-chunk before c rest (a, b, d, e) =
    ap (λ bytes. map (λ n. n % 128) (take 4 bytes)) (drop-append 4 before (chunk_bytes c rest))
    ∙ letters
  where
    letters : c.t0 % 128 ∷ c.t1 % 128 ∷ c.t2 % 128 ∷ c.t3 % 128 ∷ [] ≡ type_of c
    letters = rw (same0, same1, same2, same3)
      where
        same0 : c.t0 % 128 ≡ c.t0
        same0 = omega (arith, a)

        same1 : c.t1 % 128 ≡ c.t1
        same1 = omega (arith, b)

        same2 : c.t2 % 128 ≡ c.t2
        same2 = omega (arith, d)

        same3 : c.t3 % 128 ≡ c.t3
        same3 = omega (arith, e)

pub chunk_bytes-append : (c : Chunk) (rest : Codes) → chunk_bytes c [] ++ rest ≡ chunk_bytes c rest
chunk_bytes-append c rest =
    ap (λ bytes. u32 (length c.content) (c.t0 ∷ c.t1 ∷ c.t2 ∷ c.t3 ∷ bytes))
      (append_assoc c.content _ rest)

pub length-chunk_bytes :
    (c : Chunk) (rest : Codes) → length (chunk_bytes c rest) ≡ 12 + length c.content + length rest
length-chunk_bytes c rest = omega (arith, length-append c.content _)
