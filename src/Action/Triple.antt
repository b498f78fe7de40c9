-- ===== src/Action/Triple.antt =====
-- What an action ensures of its result and of the state after it.
use codex_official_bridge.Prelude.{◌≡◌, refl, Bool, true, false, List, [], ◌∷◌, if◌then◌else◌}
use codex_official_bridge.Protocol.Error.{Result, ok, throw}
use codex_official_bridge.Action.{Action, pure, gets, ◌>>=◌, for_each}

module _ {S A : Type 0} where
  -- `Q` at a result, `E` behind a `throw`.
  abbrev pub Post : (A → S → Type 0) → (S → Type 0) → Result A × S → Type 0
  Post Q E (ok a, s) = Q a s
  Post Q E (throw e, s) = E s

  pub record Triple (P : S → Type 0) (m : Action S A) (Q : A → S → Type 0) (E : S → Type 0)
      : Type 0 where
    pub at : (s : S) → P s → Post Q E (m s)

module _ {S A B : Type 0} {E : S → Type 0} where
  continue-lem :
      (Q : A → S → Type 0) (R : B → S → Type 0) (r : Result A × S) (f : A → Action S B)
      → ((a : A) → Triple (Q a) (f a) R E)
      → Post Q E r
      → Post R E (((λ _. r) >>= f) r.1)
  unfolding ◌>>=◌
  continue-lem Q R (ok a, s) f kf h = (kf a).at s h
  continue-lem Q R (throw e, s) f kf h = h

  pub Triple-bind :
      {P : S → Type 0} (Q : A → S → Type 0) (R : B → S → Type 0) (m : Action S A)
      (f : A → Action S B)
      → Triple P m Q E
      → ((a : A) → Triple (Q a) (f a) R E)
      → Triple P (m >>= f) R E
  unfolding ◌>>=◌
  Triple-bind Q R m f km kf = record { at = λ s h. continue-lem Q R (m s) f kf (km.at s h) }

module _ {S A : Type 0} {P : S → Type 0} {E : S → Type 0} where
  pub Triple-if :
      (R : A → S → Type 0) (b : Bool) (m n : Action S A)
      → (b ≡ true → Triple P m R E)
      → (b ≡ false → Triple P n R E)
      → Triple P (if b then m else n) R E
  Triple-if R true m n km kn = km refl
  Triple-if R false m n km kn = kn refl

  pub Triple-gets : (f : S → A) → Triple P (gets f) (λ a s. P s × (a ≡ f s)) E
  Triple-gets f = record { at = λ s h. (h, refl) }

  pub Triple-post :
      (Q R : A → S → Type 0) (m : Action S A)
      → ((a : A) (s : S) → Q a s → R a s)
      → Triple P m Q E
      → Triple P m R E
  Triple-post Q R m weaken k = record { at = λ s h. post-lem (m s) (k.at s h) }
    where
      post-lem : (r : Result A × S) → Post Q E r → Post R E r
      post-lem (ok a, s) q = weaken a s q
      post-lem (throw e, s) q = q

  -- A read keeps what is known.
  pub Triple-reads : (f : S → A) → Triple P (gets f) (λ _. P) E
  Triple-reads f = record { at = λ s h. h }

  pub Triple-pure : (a : A) → Triple P (pure a) (λ _. P) E
  Triple-pure a = record { at = λ s h. h }

module _ {S A : Type 0} {E : S → Type 0} where
  pub Triple-for_each :
      (P : List A → S → Type 0) (body : A → Action S (Unit {0})) (xs : List A)
      → ((x : A) (rest : List A) → Triple (P (x ∷ rest)) (body x) (λ _. P rest) E)
      → Triple (P xs) (for_each body xs) (λ _. P []) E
  unfolding for_each
  Triple-for_each P body [] k = record { at = λ s h. h }
  Triple-for_each P body (x ∷ xs) k =
      Triple-bind (λ _. P xs) (λ _. P []) (body x) (λ _. for_each body xs) (k x xs)
        (λ _. Triple-for_each P body xs k)

module _ {S A : Type 0} {E : S → Type 0} where
  pub Triple-pre :
      (P Q : S → Type 0) (R : A → S → Type 0) (m : Action S A)
      → ((s : S) → P s → Q s)
      → Triple Q m R E
      → Triple P m R E
  Triple-pre P Q R m f k = record { at = λ s h. k.at s (f s h) }
