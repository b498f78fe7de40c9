-- ===== src/Action/Keeps.antt =====
-- Invariants of actions, with a rule for each way to build an action.
use codex_official_bridge.Prelude.{◌≡◌, refl, Bool, true, false, List, [], ◌∷◌, if◌then◌else◌}
use codex_official_bridge.Protocol.Error.{Thrown, Result, ok, throw}
use codex_official_bridge.Action.{
  Action, pure, raise, gets, when, ◌>>=◌, for_each, recover, try_catch,
}

-- `first` keeps `Inv`, whether it returns or throws.
pub record Keeps {S A : Type 0} (Inv : S → Type 0) (first : Action S A) : Type 0 where
  pub at : (s : S) → Inv s → Inv (first s).1

module _ {S A : Type 0} {Inv : S → Type 0} where
  pub Keeps-pure : (a : A) → Keeps Inv (pure a)
  Keeps-pure a = record { at = λ s h. h }

  pub Keeps-raise : (e : Thrown) → Keeps Inv (raise {A = A} e)
  Keeps-raise e = record { at = λ s h. h }

  pub Keeps-gets : (rest : S → A) → Keeps Inv (gets rest)
  Keeps-gets rest = record { at = λ s h. h }

  pub Keeps-if :
      (b : Bool) (first second : Action S A)
      → (b ≡ true → Keeps Inv first)
      → (b ≡ false → Keeps Inv second)
      → Keeps Inv (if b then first else second)
  Keeps-if true first second keeps keeps_too = keeps refl
  Keeps-if false first second keeps keeps_too = keeps_too refl

module _ {S : Type 0} {Inv : S → Type 0} where
  pub Keeps-when :
      (b : Bool) (first : Action S (Unit {0}))
      → (b ≡ true → Keeps Inv first)
      → Keeps Inv (when b first)
  Keeps-when true first keeps = keeps refl
  Keeps-when false first keeps = Keeps-pure tt

module _ {S A B : Type 0} {Inv : S → Type 0} where
  continue-lem :
      (r : Result A) (rest : A → Action S B) (s : S)
      → ((a : A) → Keeps Inv (rest a))
      → Inv s
      → Inv (((λ t. (r, t)) >>= rest) s).1
  unfolding ◌>>=◌
  continue-lem (ok a) rest s keeps_rest h = (keeps_rest a).at s h
  continue-lem (throw e) rest s keeps_rest h = h

  pub Keeps-bind :
      (first : Action S A) (rest : A → Action S B)
      → Keeps Inv first
      → ((a : A) → Keeps Inv (rest a))
      → Keeps Inv (first >>= rest)
  unfolding ◌>>=◌
  Keeps-bind first rest keeps keeps_rest = record {
    at = λ s h. let (r, s') = first s in continue-lem r rest s' keeps_rest (keeps.at s h);
  }

module _ {S A : Type 0} {Inv : S → Type 0} where
  pub Keeps-for_each :
      (body : A → Action S (Unit {0})) (xs : List A)
      → ((a : A) → Keeps Inv (body a))
      → Keeps Inv (for_each body xs)
  unfolding for_each
  Keeps-for_each body [] k = Keeps-pure tt
  Keeps-for_each body (x ∷ xs) k =
      Keeps-bind (body x) (λ _. for_each body xs) (k x) (λ _. Keeps-for_each body xs k)

module _ {S A : Type 0} {Inv : S → Type 0} where
  recover-lem :
      (handler : Thrown → Action S A) (r : Result A) (s : S)
      → ((e : Thrown) → Keeps Inv (handler e))
      → Inv s
      → Inv (recover handler r s).1
  recover-lem handler (ok a) s keeps h = h
  recover-lem handler (throw e) s keeps h = (keeps e).at s h

  pub Keeps-try_catch :
      (body : Action S A) (handler : Thrown → Action S A)
      → Keeps Inv body
      → ((e : Thrown) → Keeps Inv (handler e))
      → Keeps Inv (try_catch body handler)
  unfolding try_catch
  Keeps-try_catch body handler keeps keeps_too = record {
    at = λ s h. let (r, s') = body s in recover-lem handler r s' keeps_too (keeps.at s h);
  }

pub ruleset keeps_rules = (
  Keeps-pure, Keeps-raise, Keeps-gets, Keeps-if, Keeps-when, Keeps-bind, Keeps-for_each,
  Keeps-try_catch,
)
