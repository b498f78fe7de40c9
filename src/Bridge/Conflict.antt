-- ===== src/Bridge/Conflict.antt =====
-- src/bridge.mjs: which requests `checkContinuation` refuses.
use codex_official_bridge.Prelude.{
  String, ◌≡◌, ◌≢◌, refl, ap, sym, Bool, true, false, ◌||◌, ◌==◌, Option, none, some, List, ◌∷◌,
  arith, if_both, if_cases, unequal-texts,
}
use codex_official_bridge.Json.{str, is_truthy}
use codex_official_bridge.Protocol.Error.{BridgeError, Result, ok, throw, throw_if, ◌>>=◌}
use codex_official_bridge.Protocol.Request.{Tool, Request, ToolOutput}
use codex_official_bridge.Protocol.Tools.{canonical_tools}
use codex_official_bridge.Bridge.{Session, ToolCall}
use codex_official_bridge.Bridge.Checks.{
  check_continuation, check_session, check_input, has_call, is_last, changes, check_continued,
}
use codex_official_bridge.Bridge.Strange.{truthy_text}

-- A session with a call that waits for its result or is put off, or with a turn under way.
pub data IsOpen (s : Session) : Type 0 where
  waits : (call : ToolCall) → s.waiting ≡ some call → IsOpen s
  puts_off : (call : ToolCall) (calls : List ToolCall) → s.pending ≡ call ∷ calls → IsOpen s
  under_way : (turn : String) → s.turn_id ≡ str turn → turn ≢ "" → IsOpen s

-- Why a request does not fit the session: it starts one while one is open; it continues a response
-- without a session, or that is not the last one; the session failed; its model, instructions,
-- effort or tools are others; its tool result answers no call that waits; or it is a text while the
-- session is open.
pub data IsConflict (req : Request) : Option Session → Type 0 where
  unfinished : (s : Session) → req.previous_id ≡ none → IsOpen s → IsConflict req (some s)
  lost : (id : String) → req.previous_id ≡ some id → IsConflict req none
  outdated :
      (s : Session) (id : String)
      → req.previous_id ≡ some id
      → s.last_response_id ≢ some id
      → IsConflict req (some s)
  failed :
      (s : Session) (id : String) (e : BridgeError)
      → req.previous_id ≡ some id
      → s.last_error ≡ some e
      → IsConflict req (some s)
  other_model :
      (s : Session) (id model : String)
      → req.previous_id ≡ some id
      → req.model ≡ some model
      → s.model ≢ some model
      → IsConflict req (some s)
  other_instructions :
      (s : Session) (id text : String)
      → req.previous_id ≡ some id
      → req.instructions ≡ some text
      → s.instructions ≢ text
      → IsConflict req (some s)
  other_effort :
      (s : Session) (id effort : String)
      → req.previous_id ≡ some id
      → req.effort ≡ some effort
      → s.effort ≢ some effort
      → IsConflict req (some s)
  other_tools :
      (s : Session) (id : String) (tools : List Tool)
      → req.previous_id ≡ some id
      → req.tools ≡ some tools
      → canonical_tools tools ≢ canonical_tools s.tools
      → IsConflict req (some s)
  wrong_result :
      (s : Session) (id : String) (out : ToolOutput)
      → req.previous_id ≡ some id
      → req.tool_output ≡ some out
      → ((call : ToolCall) → s.waiting ≡ some call → call.client_call_id ≢ out.call_id)
      → IsConflict req (some s)
  text_instead :
      (s : Session) (id : String)
      → req.previous_id ≡ some id
      → req.tool_output ≡ none
      → IsOpen s
      → IsConflict req (some s)

abbrev pub Throws : Result (Unit {0}) → Type 0
Throws (ok u) = ⊥
Throws (throw e) = Unit

pub Throws-differs : (r : Result (Unit {0})) → Throws r → r ≢ ok tt
Throws-differs (ok u) h = absurd h
Throws-differs (throw e) h = λ (same : throw e ≡ ok tt). cc

Throws-first : (m k : Result (Unit {0})) → Throws m → Throws (m >>= λ _. k)
unfolding ◌>>=◌
Throws-first (ok u) k h = absurd h
Throws-first (throw e) k h = tt

Throws-later : (m k : Result (Unit {0})) → Throws k → Throws (m >>= λ _. k)
unfolding ◌>>=◌
Throws-later (ok u) k h = h
Throws-later (throw e) k h = tt

throw_if-Throws : (b : Bool) (e : BridgeError) → b ≡ true → Throws (throw_if b e)
throw_if-Throws true e h = tt
throw_if-Throws false e h = cc

is_open : (w : Option ToolCall) → elim w as (λ _. Bool) [ some call ↦ true | none ↦ true ] ≡ true
is_open none = refl
is_open (some call) = refl

IsOpen-has_call : (s : Session) → IsOpen s → (has_call s || is_truthy s.turn_id) ≡ true
IsOpen-has_call s (waits call e) = rw e refl
IsOpen-has_call s (puts_off call calls e) = rw e (ground (arith, is_open s.waiting))
IsOpen-has_call s (under_way turn e h) = ground (arith, ap is_truthy e, truthy_text turn h)

changes_to : (a : String) (b : Option String) → b ≢ some a → changes (some a) b ≡ true
changes_to a none h = refl
changes_to a (some b) h = ground (arith, unequal-texts a b (λ e. h (ap some e)))

no_call :
    (w : Option ToolCall) (id : String)
    → ((call : ToolCall) → w ≡ some call → call.client_call_id ≢ id)
    → elim w as (λ _. Bool) [ none ↦ false | some call ↦ call.client_call_id == id ] ≡ false
no_call none id h = refl
no_call (some call) id h = unequal-texts call.client_call_id id (λ e. h call refl (sym e))

not_last :
    (o : Option String) (id : String)
    → o ≢ some id
    → elim o as (λ _. Bool) [ none ↦ false | some last ↦ last == id ] ≡ false
not_last none id h = refl
not_last (some last) id h = unequal-texts last id (λ e. h (ap some (sym e)))

outdated-Throws :
    (req : Request) (s : Session) (id : String)
    → is_last id s ≡ false
    → Throws (check_continued req id (some s))
outdated-Throws req s id e = if_cases Throws (is_last id s) _ _ (λ last. cc) (λ old. tt)

continued-Throws :
    (req : Request) (s : Session) (id : String)
    → req.previous_id ≡ some id
    → Throws (check_session req s)
    → Throws (check_continuation req (some s))
unfolding check_continuation check_session
continued-Throws req s id e h = rw e (if_both Throws (is_last id s) _ _ h tt)

input_last :
    (req : Request) (s : Session)
    → Throws (check_input s req.tool_output)
    → Throws (check_session req s)
unfolding check_session
input_last req s h =
    Throws-later _ _ (Throws-later _ _ (Throws-later _ _ (Throws-later _ _ (Throws-later _ _ h))))

-- A request that conflicts with the session throws.
pub IsConflict-Throws :
    (req : Request) (o : Option Session) → IsConflict req o → Throws (check_continuation req o)
unfolding check_continuation check_session
IsConflict-Throws req _ (unfinished s e o) =
    rw e (throw_if-Throws _ _ (ground (arith, IsOpen-has_call s o)))
IsConflict-Throws req _ (lost id e) = rw e tt
IsConflict-Throws req _ (outdated s id e h) =
    rw e (outdated-Throws req s id (not_last s.last_response_id id h))
IsConflict-Throws req _ (failed s id e p f) =
    continued-Throws req s id p (Throws-first _ _ (rw f tt))
IsConflict-Throws req _ (other_model s id model p m h) =
    continued-Throws req s id p (
      Throws-later _ _ (Throws-first _ _ (throw_if-Throws _ _ (rw m (changes_to model s.model h)))))
IsConflict-Throws req _ (other_instructions s id text p m h) = continued-Throws req s id p (
    Throws-later _ _ (
      Throws-later _ _ (
        Throws-first _ _ (
          throw_if-Throws _ _ (
            rw m (
              changes_to text (some s.instructions)
                λ (f : some s.instructions ≡ some text). h cc))))))
IsConflict-Throws req _ (other_effort s id effort p m h) = continued-Throws req s id p (
    Throws-later _ _ (
      Throws-later _ _ (
        Throws-later _ _
          (Throws-first _ _ (throw_if-Throws _ _ (rw m (changes_to effort s.effort h)))))))
IsConflict-Throws req _ (other_tools s id tools p m h) =
    let differ = unequal-texts (canonical_tools tools) (canonical_tools s.tools) (λ e. h (sym e)) in
    continued-Throws req s id p (
      Throws-later _ _ (
        Throws-later _ _ (
          Throws-later _ _ (
            Throws-later _ _
              (Throws-first _ _ (rw m (throw_if-Throws _ _ (ground (arith, differ)))))))))
IsConflict-Throws req _ (wrong_result s id out p m h) = continued-Throws req s id p (
    input_last req s (rw m (throw_if-Throws _ _ (ground (arith, no_call s.waiting out.call_id h)))))
IsConflict-Throws req _ (text_instead s id p m o) =
    continued-Throws req s id p
      (input_last req s (rw m (throw_if-Throws _ _ (IsOpen-has_call s o))))
