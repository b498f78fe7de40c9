-- ===== src/Action.antt =====
-- Methods that change an object and may throw. What was written before a `throw` stays written, so
-- the state comes back beside the exception too.
pub mod Keeps
pub mod Triple
use codex_official_bridge.Prelude.{Bool, true, false, List, [], ◌∷◌}
use codex_official_bridge.Protocol.Error.{Thrown, Result, ok, throw}

abbrev pub Action : Type 0 → Type 0 → Type 0
Action S A = S → Result A × S

module _ {S A : Type 0} where
  abbrev pub pure : A → Action S A
  pure a s = (ok a, s)

  abbrev pub raise : Thrown → Action S A
  raise e s = (throw e, s)

  abbrev pub gets : (S → A) → Action S A
  gets f s = (ok (f s), s)

module _ {S : Type 0} where
  abbrev pub modify : (S → S) → Action S (Unit {0})
  modify f s = (ok tt, f s)

  -- `if (test) ...`, with nothing otherwise.
  abbrev pub when : Bool → Action S (Unit {0}) → Action S (Unit {0})
  when true m = m
  when false m = pure tt

module _ {S A B : Type 0} where
  abbrev continue : Result A → (A → Action S B) → Action S B
  continue (ok a) f s = f a s
  continue (throw e) f s = (throw e, s)

  infixl 5 ◌>>=◌ ◌>>◌
  unfoldable pub ◌>>=◌ : Action S A → (A → Action S B) → Action S B
  ◌>>=◌ m f s = let (r, s') = m s in continue r f s'

  abbrev pub ◌>>◌ : Action S A → Action S B → Action S B
  m >> n = m >>= λ _. n

-- `for (const x of xs) body(x)`.
module _ {S A : Type 0} where
  unfoldable pub for_each : (A → Action S (Unit {0})) → List A → Action S (Unit {0})
  for_each body [] = pure tt
  for_each body (x ∷ xs) = do body x; for_each body xs

module _ {S A : Type 0} where
  abbrev pub recover : (Thrown → Action S A) → Result A → Action S A
  recover handler (ok a) s = (ok a, s)
  recover handler (throw e) s = handler e s

  -- `try { body } catch (error) { handler(error) }`.
  unfoldable pub try_catch : Action S A → (Thrown → Action S A) → Action S A
  try_catch body handler s = let (r, s') = body s in recover handler r s'
