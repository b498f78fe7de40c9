-- ===== src/Image/Service/Kept.antt =====
-- scripts/desktop-image-mcp.mjs, `generate`: the reserved file stays only with a whole image.
use codex_official_bridge.Prelude.{
  ◌≤◌, String, ◌≡◌, refl, sym, subst, Bool, true, false, not, Option, none, some, [], arith, length,
  if_both,
}
use codex_official_bridge.Json.{Value}
use codex_official_bridge.Codes.{Codes}
use codex_official_bridge.Image.{Outcome, done, failed, ◌>>=◌}
use codex_official_bridge.Image.Png.{Png, inspect_png}
use codex_official_bridge.Image.Service.{
  World, measured, written, save, start_in, Store, Saved, accepts, image_in, write, attempt,
  release, generate,
}

-- A saved image: what is in the file, its measures, and that it passed the inspection.
abbrev pub IsKept : Saved → Option Codes → Type 0
IsKept saved none = ⊥
IsKept saved (some image) = (inspect_png image ≡ done saved.png) × (saved.bytes ≡ length image)

-- With a result the file is kept, and without one there is none; at most one request was sent.
abbrev pub IsClean : Outcome Saved × Store → Type 0
IsClean (done saved, store) = IsKept saved store.file × (store.requests ≡ 1)
IsClean (failed e, store) = (store.file ≡ none) × (store.requests ≤ 1)

abbrev IsTried : Outcome Saved × (Bool × Store) → Type 0
IsTried (done saved, (kept, store)) = (kept ≡ true) × IsKept saved store.file × (store.requests ≡ 1)
IsTried (failed e, (kept, store)) = (kept ≡ false) × (store.requests ≤ 1)

abbrev IsWritten : Codes → Bool × Store → Type 0
IsWritten image (true, store) = (store.file ≡ some image) × (store.requests ≡ 1)
IsWritten image (false, store) = store.requests ≡ 1

abbrev IsMeasured : Outcome (Codes × Png) → Type 0
IsMeasured (failed e) = Unit
IsMeasured (done (image, p)) = inspect_png image ≡ done p

module _ (decode : String → Codes) (encode : Codes → String) (parse : Codes → Option Value)
    (world : World) where
  write-IsWritten :
      (image : Codes) (store : Store)
      → store.requests ≡ 1
      → IsWritten image (write decode encode parse world image store)
  write-IsWritten image store once =
      if_both (IsWritten image) (not world.writes) _ _ once (synced world.syncs)
    where
      synced : (b : Bool) → IsWritten image (b, record store { file = some image })
      synced true = (refl, once)
      synced false = once

  written-IsTried :
      (path : String) (image : Codes) (p : Png) (w : Bool × Store)
      → inspect_png image ≡ done p
      → IsWritten image w
      → IsTried (written decode encode parse world path (image, p) w)
  written-IsTried path image p (true, store) e (held, once) = (
    refl,
    subst (IsKept (record { path = path; png = p; bytes = length image })) (sym held) (e, refl),
    once,
  )
  written-IsTried path image p (false, store) e once = (refl, omega (arith, once))

  release-IsClean :
      (t : Outcome Saved × (Bool × Store))
      → world.closes ≡ true
      → world.removes ≡ true
      → IsTried t
      → IsClean (release decode encode parse world t)
  unfolding release
  release-IsClean (done saved, (kept, store)) closes removes (e, f, n) = simp (closes, e) (f, n)
  release-IsClean (failed e, (kept, store)) closes removes (f, n) =
      simp (closes, removes, f) (refl, n)

  save-IsTried :
      (path : String) (store : Store) (m : Outcome (Codes × Png))
      → IsMeasured m
      → store.requests ≡ 1
      → IsTried (save decode encode parse world path store m)
  save-IsTried path store (failed e) h once = (refl, omega (arith, once))
  save-IsTried path store (done (image, p)) h once =
      written-IsTried path image p (write decode encode parse world image store) h
        (write-IsWritten image store once)

  measured-IsMeasured : (m : Outcome Codes) → IsMeasured (measured decode encode parse world m)
  unfolding ◌>>=◌
  measured-IsMeasured (failed e) = tt
  measured-IsMeasured (done image) = inspected (inspect_png image) refl
    where
      inspected :
          (r : Outcome Png) → inspect_png image ≡ r → IsMeasured (r >>= λ p. done (image, p))
      inspected (done p) e = e
      inspected (failed e) h = tt

  -- Where closing and removing the file succeed, and whatever else happens: with a result the
  -- reserved file holds an image that passed the inspection, with the sides and the size that are
  -- reported, and one request was sent; with an error no file is left, and at most one was sent.
  pub generate-IsClean :
      (args : Value) (connected : Outcome (Unit {0})) (reserved : Outcome String)
      → world.closes ≡ true
      → world.removes ≡ true
      → IsClean (generate decode encode parse world args connected reserved)
  unfolding generate attempt
  generate-IsClean args connected reserved closes removes =
      if_both IsClean (not (accepts args)) _ _ (refl, omega arith)
        (start-IsClean (connected >>= λ _. reserved))
    where
      start-IsClean :
          (r : Outcome String)
          → IsClean (start_in decode encode parse world (record { file = none; requests = 0 }) r)
      start-IsClean (failed e) = (refl, omega arith)
      start-IsClean (done path) =
          release-IsClean
            (save decode encode parse world path (record { file = some []; requests = 1 })
              (measured decode encode parse world
                (image_in decode encode parse world world.response)))
            closes removes
            (save-IsTried path (record { file = some []; requests = 1 }) _
              (measured-IsMeasured (image_in decode encode parse world world.response)) refl)
