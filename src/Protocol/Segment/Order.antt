-- ===== src/Protocol/Segment/Order.antt =====
-- The sequence numbers of a segment, over every method, also where `onEvent` throws.
use codex_official_bridge.Prelude.{
  ℕ, suc, ◌<◌, String, ◌≡◌, refl, Option, none, List, [], ◌∷◌, arith,
}
use codex_official_bridge.Protocol.Error.{Thrown}
use codex_official_bridge.Action.{modify}
use codex_official_bridge.Action.Keeps.{Keeps}
use codex_official_bridge.Protocol.Segment.{Event, Segment, new, emit}
use codex_official_bridge.Protocol.Segment.Methods.{Method, run, run_induction}
use codex_official_bridge.Protocol.Segment.Frame.{perform-Keeps}

-- The numbers rise along the log and stay below `n`; the newest event stands first.
abbrev pub Below : ℕ → List (ℕ × Event) → Type 0
Below n [] = Unit
Below n ((k, e) ∷ log) = (k < n) × Below k log

abbrev pub IsOrdered : Segment → Type 0
IsOrdered s = Below s.sequence s.emitted

Below-suc : (n : ℕ) (log : List (ℕ × Event)) → Below n log → Below (suc n) log
Below-suc n [] h = tt
Below-suc n ((k, e) ∷ log) (h, t) = (omega arith, t)

emit-IsOrdered : (e : Event) → Keeps IsOrdered (emit e)
unfolding emit
emit-IsOrdered e = record { at = λ s h. ground (arith, Below-suc s.sequence s.emitted h) }

modify-IsOrdered :
    (f : Segment → Segment)
    → ((s : Segment) → (f s).emitted ≡ s.emitted)
    → ((s : Segment) → (f s).sequence ≡ s.sequence)
    → ((s : Segment) → (f s).on_event ≡ s.on_event)
    → Keeps IsOrdered (modify f)
modify-IsOrdered f log number sink = record { at = λ s h. rw (log s, number s) h }

-- From a segment whose numbers rise, whatever methods are called in whatever order, and whatever
-- `onEvent` throws, the numbers of the delivered events rise strictly and stay below the next one.
pub run-IsOrdered : (s : Segment) (ms : List Method) → IsOrdered s → IsOrdered (run s ms)
run-IsOrdered = run_induction IsOrdered (perform-Keeps IsOrdered emit-IsOrdered modify-IsOrdered)

-- The numbers of the log are n - 1, …, 1, 0.
abbrev pub Numbered : ℕ → List (ℕ × Event) → Type 0
Numbered n [] = n ≡ 0
Numbered n ((k, e) ∷ log) = (n ≡ suc k) × Numbered k log

-- `onEvent` never throws, and no number has been left out.
pub record IsGapless (s : Segment) : Type 0 where
  pub quiet : (log : List (ℕ × Event)) (e : ℕ × Event) → s.on_event log e ≡ none
  pub numbered : Numbered s.sequence s.emitted

emit-IsGapless : (e : Event) → Keeps IsGapless (emit e)
unfolding emit
emit-IsGapless e = record {
  at = λ s h.
      rw (h.quiet s.emitted (s.sequence, e), emit)
        (record { quiet = h.quiet; numbered = (refl, h.numbered) });
}

modify-IsGapless :
    (f : Segment → Segment)
    → ((s : Segment) → (f s).emitted ≡ s.emitted)
    → ((s : Segment) → (f s).sequence ≡ s.sequence)
    → ((s : Segment) → (f s).on_event ≡ s.on_event)
    → Keeps IsGapless (modify f)
modify-IsGapless f log number sink = record {
  at = λ s h. record { quiet = rw (sink s) h.quiet; numbered = rw (log s, number s) h.numbered };
}

-- Where `onEvent` never throws, the delivered events of a new segment are numbered 0, 1, 2, … with
-- no gap, whatever methods are called in whatever order.
pub run-Numbered :
    (model : Option String) (previous_id : Option String)
    (on_event : List (ℕ × Event) → ℕ × Event → Option Thrown) (uuid : ℕ → String) (now : ℕ)
    (ms : List Method)
    → ((log : List (ℕ × Event)) (e : ℕ × Event) → on_event log e ≡ none)
    → let s = run (new model previous_id on_event uuid now) ms in Numbered s.sequence s.emitted
unfolding new
run-Numbered model previous_id on_event uuid now ms quiet =
    (run_induction IsGapless (perform-Keeps IsGapless emit-IsGapless modify-IsGapless)
      (new model previous_id on_event uuid now) ms
      (record { quiet = quiet; numbered = refl })).numbered
