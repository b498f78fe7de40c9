-- ===== src/Bridge/Returning.antt =====
-- src/bridge.mjs: what interrupts a call of `respond` makes it return.
use codex_official_bridge.Prelude.{
  ◌≡◌, refl, sym, subst, ap, ◌∙◌, Bool, true, false, Option, none, some, List, [], ◌∷◌, Bool-cases,
  inl, inr,
}
use codex_official_bridge.Protocol.Error.{Thrown, Result, throw}
use codex_official_bridge.Protocol.Segment.{Segment, Response}
use codex_official_bridge.Protocol.Segment as Segments
use codex_official_bridge.Action.{Action, modify, ◌>>=◌, ◌>>◌}
use codex_official_bridge.Action.Keeps.{
  Keeps, Keeps-bind, Keeps-when, Keeps-pure, Keeps-gets, Keeps-try_catch,
}
use codex_official_bridge.Bridge.{Bridge, Operation, World}
use codex_official_bridge.Bridge.Ending.{
  fail, release_session, is_unsettled, with_result, on_segment, in_segment,
}
use codex_official_bridge.Bridge.Ended.{SameEnd, fail-IsEnded, release_from-Keeps}
use codex_official_bridge.Bridge.Respond.{abort, return_result, return_from, result_of}
use codex_official_bridge.Bridge.Steps.{
  Step, aborts, expires, exits, closes, returns, is_there, step, run, close, on_exit,
}

-- A call of `respond` waits for its result, or has it; the calls before it ended in this way.
abbrev pub IsWaiting : List (Result Response) → Bridge → Type 0
IsWaiting ends b = (is_there b.operation ≡ true) × (b.returned ≡ ends)

module _ (ends : List (Result Response)) where
  same-IsWaiting : (b c : Bridge) → SameEnd b c → IsWaiting ends b → IsWaiting ends c
  same-IsWaiting b c (s, t, o, r) (h, e) = (rw o h, r ∙ e)

  in_segment-IsWaiting :
      {A : Type 0} (m : Action Segment A) (b : Bridge) (o : Option Operation)
      → is_there o ≡ true
      → b.returned ≡ ends
      → IsWaiting ends (in_segment m b o).1
  in_segment-IsWaiting m b none h e = cc
  in_segment-IsWaiting m b (some op) h e = (refl, e)

  on_segment-IsWaiting : {A : Type 0} (m : Action Segment A) → Keeps (IsWaiting ends) (on_segment m)
  unfolding on_segment
  on_segment-IsWaiting m = record { at = λ b (h, e). in_segment-IsWaiting m b b.operation h e }

  with_result-there :
      (r : Result Response) (o : Option Operation)
      → is_there o ≡ true
      → is_there (with_result r o) ≡ true
  with_result-there r none h = cc
  with_result-there r (some op) h = refl

  release_session-IsWaiting : Keeps (IsWaiting ends) release_session
  unfolding release_session
  release_session-IsWaiting = Keeps-bind _ _ (Keeps-gets _) λ s.
      Keeps-bind _ _ (record { at = λ b h. h })
        λ u. release_from-Keeps (IsWaiting ends) same-IsWaiting s

  fail-IsWaiting : (e : Thrown) → Keeps (IsWaiting ends) (fail e)
  unfolding fail
  fail-IsWaiting e = Keeps-bind _ _ (Keeps-gets _) λ unsettled.
      Keeps-bind _ _
        (Keeps-when unsettled _ λ yes.
          Keeps-bind _ _
            (Keeps-try_catch _ _ (on_segment-IsWaiting (Segments.fail e)) (λ caught. Keeps-pure tt))
            λ u. record { at = λ b (h, same). (with_result-there (throw e) b.operation h, same) })
        λ u. release_session-IsWaiting

-- Its result is there.
abbrev HasResult : Option Operation → Type 0
HasResult o = (r : Result Response) × (result_of o ≡ some r)

settled-HasResult :
    (o : Option Operation) → is_there o ≡ true → is_unsettled o ≡ false → HasResult o
settled-HasResult none h k = cc
settled-HasResult (some op) h k = of_result op.result k
  where
    of_result :
        (r : Option (Result Response))
        → elim r as (λ _. Bool) [ none ↦ true | some _ ↦ false ] ≡ false
        → (a : Result Response) × (r ≡ some a)
    of_result (some r) e = (r, refl)
    of_result none e = cc

-- The call has returned, with its end in front of the earlier ones, and the bridge is free.
abbrev pub HasReturned : List (Result Response) → Bridge → Type 0
HasReturned ends b =
    (b.busy ≡ false) × (b.operation ≡ none) × ((r : Result Response) × (b.returned ≡ r ∷ ends))

return_result-HasReturned :
    (ends : List (Result Response)) (b : Bridge)
    → HasResult b.operation
    → b.returned ≡ ends
    → HasReturned ends (return_result b).1
unfolding return_result ◌>>=◌
return_result-HasReturned ends b (r, e) same =
    subst (λ o. HasReturned ends (return_from o b).1) (sym e)
      (refl, refl, (r, ap (λ log. r ∷ log) same))

-- A state in which the call can return.
record IsSettled (ends : List (Result Response)) (b : Bridge) : Type 0 where
  result : HasResult b.operation
  before : b.returned ≡ ends

fail-IsSettled :
    (ends : List (Result Response)) (e : Thrown) (b : Bridge)
    → IsWaiting ends b
    → IsSettled ends (fail e b).1
fail-IsSettled ends e b h =
    let (there, same) = (fail-IsWaiting ends e).at b h in
    record { result = settled-HasResult _ there (fail-IsEnded e b).no_wait; before = same }

module _ (ends : List (Result Response)) where
  same-IsSettled : (b c : Bridge) → SameEnd b c → IsSettled ends b → IsSettled ends c
  same-IsSettled b c (s, t, o, r) h = record { result = rw o h.result; before = r ∙ h.before }

  release_session-IsSettled : Keeps (IsSettled ends) release_session
  unfolding release_session
  release_session-IsSettled = Keeps-bind _ _ (Keeps-gets _) λ s.
      Keeps-bind _ _ (record { at = λ b h. record { result = h.result; before = h.before } })
        λ u. release_from-Keeps (IsSettled ends) same-IsSettled s

  -- What follows in `close`.
  shut_down : Action Bridge (Unit {0})
  shut_down = do modify (λ b. record b { closed = true }); release_session

  shut_down-IsSettled : Keeps (IsSettled ends) shut_down
  unfolding shut_down
  shut_down-IsSettled =
      Keeps-bind _ _ (record { at = λ b h. record { result = h.result; before = h.before } })
        λ u. release_session-IsSettled

  after-IsSettled :
      (r : Result (Unit {0}) × Bridge)
      → IsSettled ends r.1
      → IsSettled ends (((λ b. r) >>= λ u. shut_down) r.1).1
  after-IsSettled r h =
      (Keeps-bind (λ b. r) (λ u. shut_down) (record { at = λ b k. h }) λ u. shut_down-IsSettled).at
        r.1 h

  close-IsSettled : (b : Bridge) → IsWaiting ends b → IsSettled ends (close b).1
  unfolding close ◌>>=◌ shut_down
  close-IsSettled b (there, same) = elim (Bool-cases (is_unsettled b.operation)) [
    | inl unsettled ↦
        rw unsettled (after-IsSettled (fail _ b) (fail-IsSettled ends _ b (there, same)))
    | inr idle ↦ rw idle (
        shut_down-IsSettled.at b
          (record { result = settled-HasResult b.operation there idle; before = same }))
  ]

-- The timer of the request, the signal, the exit of the app-server, and `close`.
abbrev pub interrupts : Step → Bool
interrupts expires = true
interrupts aborts = true
interrupts exits = true
interrupts closes = true
interrupts _ = false

module _ (world : World) where
  step-IsSettled :
      (ends : List (Result Response)) (t : Step) (b : Bridge)
      → interrupts t ≡ true
      → IsWaiting ends b
      → IsSettled ends (step world t b).1
  unfolding step ◌>>=◌ on_exit abort
  step-IsSettled ends expires b i (h, e) = simp h (fail-IsSettled ends _ b (h, e))
  step-IsSettled ends aborts b i (h, e) = simp h (fail-IsSettled ends _ _ (h, e))
  step-IsSettled ends exits b i (h, e) = fail-IsSettled ends _ _ (h, e)
  step-IsSettled ends closes b i (h, e) = close-IsSettled ends b (h, e)
  step-IsSettled ends t b i h = cc

  -- From any state in which a call of `respond` waits for its result or has it: after its timer, its
  -- signal, the exit of the app-server or `close`, whatever the segment and the client do, the call
  -- returns with one result, and the bridge is free.
  pub run-HasReturned :
      (ends : List (Result Response)) (t : Step) (b : Bridge)
      → interrupts t ≡ true
      → IsWaiting ends b
      → HasReturned ends (run world b (t ∷ returns ∷ []))
  unfolding run step
  run-HasReturned ends t b i h =
      let s = step-IsSettled ends t b i h in
      return_result-HasReturned ends (step world t b).1 s.result s.before
