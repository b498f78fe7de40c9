-- ===== src/Image/Verdict.antt =====
-- What holds of an outcome: of its result, or of its error.
use codex_official_bridge.Image.{Failure, Outcome, done, failed, ◌>>=◌}

module _ (E : Failure → Type 0) where
  abbrev Judged : {A : Type 0} → (A → Type 0) → Outcome A → Type 0
  Judged P (done a) = P a
  Judged P (failed e) = E e

  pub record Verdict {A : Type 0} (P : A → Type 0) (m : Outcome A) : Type 0 where
    pub verdict : Judged P m

  pub Verdict-bind :
      {A B : Type 0} (P : A → Type 0) (Q : B → Type 0) (m : Outcome A) (f : A → Outcome B)
      → Verdict P m
      → ((a : A) → P a → Verdict Q (f a))
      → Verdict Q (m >>= f)
  unfolding ◌>>=◌
  Verdict-bind P Q (done a) f h k = k a h.verdict
  Verdict-bind P Q (failed e) f h k = record { verdict = h.verdict }

  pub Verdict-map :
      {A : Type 0} (P Q : A → Type 0) (m : Outcome A)
      → Verdict P m
      → ((a : A) → P a → Q a)
      → Verdict Q m
  Verdict-map P Q (done a) h f = record { verdict = f a h.verdict }
  Verdict-map P Q (failed e) h f = record { verdict = h.verdict }

  pub Verdict-done : {A : Type 0} (P : A → Type 0) (a : A) → P a → Verdict P (done a)
  Verdict-done P a h = record { verdict = h }

  pub Verdict-error : {A : Type 0} (P : A → Type 0) (e : Failure) → E e → Verdict P (failed e)
  Verdict-error P e h = record { verdict = h }

-- Every result has a property; an error may be any.
abbrev pub Unbound : Failure → Type 0
Unbound e = Unit
