-- ===== src/Bridge/Continued.antt =====
-- src/bridge.mjs: which requests `respond` admits.
use codex_official_bridge.Prelude.{
  String, ◌≡◌, refl, Bool, true, false, not, ◌||◌, Option, none, some, arith, if_cases,
}
use codex_official_bridge.Json.{is_truthy}
use codex_official_bridge.Protocol.Error.{BridgeError, Result, ok, throw_if}
use codex_official_bridge.Protocol.Request.{Request, ToolOutput}
use codex_official_bridge.Protocol.Valid.{Gives, Gives-ok, Gives-throw, Gives-then}
use codex_official_bridge.Bridge.{Bridge, Session}
use codex_official_bridge.Bridge.Checks.{
  admit, check_continuation, check_session, check_input, check_new, has_call, is_last,
  check_continued, waits_for,
}

-- What a request needs of the session that it continues: a tool result answers the call that
-- waits, and a text comes where no call is open and no turn is under way.
abbrev Fits : Session → Option ToolOutput → Type 0
Fits s none = (has_call s ≡ false) × (is_truthy s.turn_id ≡ false)
Fits s (some out) = waits_for s out.call_id ≡ true

throw_if-quiet : (b : Bool) (e : BridgeError) → Gives (λ u. b ≡ false) (throw_if b e)
throw_if-quiet true e = Gives-throw _ _
throw_if-quiet false e = Gives-ok _ _ refl

check_input-Fits :
    (s : Session) (out : Option ToolOutput) → Gives (λ u. Fits s out) (check_input s out)
check_input-Fits s none = record {
  at = λ u e.
      let quiet = (throw_if-quiet (has_call s || is_truthy s.turn_id) _).at u e in
      (ground arith, ground arith);
}
check_input-Fits s (some out) = record {
  at = λ u e.
      let quiet = (throw_if-quiet (not (waits_for s out.call_id)) _).at u e in not-true quiet;
}
  where
    not-true : {b : Bool} → not b ≡ false → b ≡ true
    not-true {b = true} e = refl
    not-true {b = false} e = cc

-- What the session must be for a request, by the request's previous response id.
abbrev pub Admits : Option String → Option ToolOutput → Option Session → Type 0
Admits none out none = Unit
Admits none out (some s) = (has_call s ≡ false) × (is_truthy s.turn_id ≡ false)
Admits (some id) out none = ⊥
Admits (some id) out (some s) = (is_last id s ≡ true) × Fits s out

check_session-Fits :
    (req : Request) (s : Session) → Gives (λ u. Fits s req.tool_output) (check_session req s)
unfolding check_session
check_session-Fits req s = Gives-then _ _ _ λ a. Gives-then _ _ _ λ b.
    Gives-then _ _ _
      λ c. Gives-then _ _ _ λ d. Gives-then _ _ _ λ e. check_input-Fits s req.tool_output

check_continuation-Admits :
    (req : Request) (session : Option Session)
    → Gives (λ u. Admits req.previous_id req.tool_output session) (check_continuation req session)
unfolding check_continuation
check_continuation-Admits req session = cases req.previous_id session
  where
    cases :
        (previous : Option String) (session : Option Session)
        → Gives
            (λ u. Admits previous req.tool_output session)
            (elim previous [ none ↦ check_new session | some id ↦ check_continued req id session ])
    cases none none = Gives-ok _ _ tt
    cases none (some s) = record {
      at = λ u e.
          let quiet = (throw_if-quiet (is_truthy s.turn_id || has_call s) _).at u e in
          (ground arith, ground arith);
    }
    cases (some id) none = Gives-throw _ _
    cases (some id) (some s) =
        if_cases (Gives (λ u. (is_last id s ≡ true) × Fits s req.tool_output)) (is_last id s) _ _
          (λ last. record { at = λ u e. (last, (check_session-Fits req s).at u e) })
          (λ old. Gives-throw _ _)

-- A request that `respond` admits comes to an open bridge that runs no other, from a client that is
-- there. If it continues a response, that is the last one of the session, and it answers the call
-- that waits or is a text while no call is open and no turn is under way; if it starts a session,
-- the one before, if any, has neither an open call nor a turn under way.
pub admit-Admits :
    (req : Request) (aborted : Bool) (b : Bridge)
    → admit req aborted b ≡ ok tt
    → (b.closed ≡ false)
      × (b.busy ≡ false)
      × (aborted ≡ false)
      × Admits req.previous_id req.tool_output b.session
unfolding admit
admit-Admits req aborted b =
    (if_cases P b.closed _ _ (λ shut. Gives-throw _ _)
        λ is_open.
          if_cases P b.busy _ _ (λ busy. Gives-throw _ _)
            λ idle.
              if_cases P aborted _ _ (λ gone. Gives-throw _ _)
                λ there. record {
                  at = λ u e.
                      (is_open, idle, there, (check_continuation-Admits req b.session).at u e);
                }).at
      tt
  where
    P : Result (Unit {0}) → Type 0
    P r =
        Gives
          (λ u.
            (b.closed ≡ false)
            × (b.busy ≡ false)
            × (aborted ≡ false)
            × Admits req.previous_id req.tool_output b.session)
          r
