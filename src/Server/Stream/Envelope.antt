-- ===== src/Server/Stream/Envelope.antt =====
-- src/server.mjs: a response to the bridge's clients is a stream or one JSON answer, never both.
use codex_official_bridge.Prelude.{
  ℕ, ◌≡◌, ◌⊎◌, inl, inr, refl, false, ◌||◌, none, List, [], ◌∷◌, arith, if_both, if_cases,
}
use codex_official_bridge.Protocol.Error.{Result, ok, throw}
use codex_official_bridge.Server.Stream.{
  Outgoing, fresh, Happening, sends, beats, breaks, happen, run, on_event, beat, answer, status_of,
  conclude,
}

-- Nothing is written before the head of the stream, and nothing is answered yet.
record IsUnanswered (out : Outgoing) : Type 0 where
  empty : out.streaming ≡ false → out.pieces ≡ []
  open_yet : out.answered ≡ none

happen-IsUnanswered :
    (h : Happening) (out : Outgoing) → IsUnanswered out → IsUnanswered (happen h out)
unfolding happen on_event beat
happen-IsUnanswered (sends queued type content) out i = record {
  empty = λ e. ground (arith, i.empty);
  open_yet = ground (arith, i.open_yet);
}
happen-IsUnanswered beats out i = record {
  empty = λ e. ground (arith, i.empty);
  open_yet = ground (arith, i.open_yet);
}
happen-IsUnanswered breaks out i = record { empty = i.empty; open_yet = i.open_yet }

run-IsUnanswered :
    (out : Outgoing) (hs : List Happening) → IsUnanswered out → IsUnanswered (run out hs)
unfolding run
run-IsUnanswered out [] i = i
run-IsUnanswered out (h ∷ hs) i = run-IsUnanswered (happen h out) hs (happen-IsUnanswered h out i)

-- What holds of a response in the end.
abbrev pub IsOneKind : Outgoing → Type 0
IsOneKind out = (out.answered ≡ none) ⊎ (out.pieces ≡ [])

answer-IsOneKind : (status : ℕ) (out : Outgoing) → out.pieces ≡ [] → IsOneKind (answer status out)
answer-IsOneKind status out none_yet =
    if_both IsOneKind (out.destroyed || out.ended) _ _ (inr none_yet) (inr none_yet)

conclude-IsOneKind :
    {A : Type 0} (r : Result A) (out : Outgoing) → IsUnanswered out → IsOneKind (conclude r out)
unfolding conclude
conclude-IsOneKind (ok a) out i =
    if_cases IsOneKind out.streaming _ _ (λ streaming. inl i.open_yet)
      λ unwritten. answer-IsOneKind 200 out (i.empty unwritten)
conclude-IsOneKind (throw e) out i = if_both IsOneKind out.destroyed _ _ (inl i.open_yet) (
    if_cases IsOneKind out.streaming _ _ (λ streaming. inl i.open_yet)
      λ unwritten. answer-IsOneKind (status_of e) out (i.empty unwritten))

fresh-IsUnanswered : IsUnanswered fresh
unfolding fresh
fresh-IsUnanswered = record { empty = λ e. refl; open_yet = refl }

-- Whatever happens to a new response while the bridge runs, and however that ends: the response has
-- no JSON answer, or no piece of a stream was written.
pub conclude_once :
    {A : Type 0} (hs : List Happening) (r : Result A) → IsOneKind (conclude r (run fresh hs))
conclude_once hs r =
    conclude-IsOneKind r (run fresh hs) (run-IsUnanswered fresh hs fresh-IsUnanswered)
