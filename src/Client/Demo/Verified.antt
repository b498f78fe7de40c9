-- ===== src/Client/Demo/Verified.antt =====
-- examples/tool-client.mjs, `run`: what a run that passes has done.
use codex_official_bridge.Prelude.{
  ℕ, zero, suc, ◌+◌, ◌≤◌, String, ◌≡◌, refl, sym, subst, true, false, not, not-false, Option, List,
  [], ◌∷◌, arith, length, All, if_cases,
}
use codex_official_bridge.Json.{Value, get}
use codex_official_bridge.Codes.{Codes}
use codex_official_bridge.Client.Sse.{error_message}
use codex_official_bridge.Client.Demo.{
  Failure, Outcome, done, failed, ◌>>=◌, Body, first, continued, Demo, new, check_response,
  has_part, check_call, with_answer, run_call, execute, read_output, conclude, go_on, at_response,
  answered, rounds, run,
}

module _ (parse : Value → Option Value) (text_of : Value → Codes) (note nonce : Codes)
    (ask : ℕ → Body → Outcome Value) where
  abbrev IsAnswer : String × Codes → Type 0
  IsAnswer (id, output) = output ≡ note

  -- Every tool output that is sent is the note.
  abbrev pub IsHonest : Body → Type 0
  IsHonest first = Unit
  IsHonest (continued previous input) = All IsAnswer input

  abbrev HasRead : Demo → Type 0
  HasRead d = d.executed ≡ true → 1 ≤ d.reads

  abbrev AreAnswers : Outcome (List (String × Codes)) → Type 0
  AreAnswers (done input) = All IsAnswer input
  AreAnswers (failed f) = Unit

  abbrev IsExecuted : Demo → Outcome (List (String × Codes)) × Demo → Type 0
  IsExecuted d (o, e) = (e.requests ≡ d.requests) × HasRead e × AreAnswers o

  with_answer-IsExecuted :
      (id : String) (d : Demo) (r : Outcome (List (String × Codes)) × Demo)
      → IsExecuted d r
      → IsExecuted d (with_answer parse text_of note nonce ask id r)
  with_answer-IsExecuted id d (done input, e) (q, h, a) = (q, h, (refl, a))
  with_answer-IsExecuted id d (failed f, e) h = h

  execute-IsExecuted :
      (calls : List Value) (d : Demo)
      → HasRead d
      → IsExecuted d (execute parse text_of note nonce ask calls d)
  unfolding execute
  execute-IsExecuted [] d h = (refl, h, tt)
  execute-IsExecuted (call ∷ calls) d h = ran (check_call parse text_of note nonce ask call) (
      execute-IsExecuted calls (record d { reads = suc d.reads; executed = true })
        (λ e. omega arith))
    where
      ran :
          (o : Outcome String)
          → IsExecuted
              (record d { reads = suc d.reads; executed = true })
              (execute parse text_of note nonce ask calls
                (record d { reads = suc d.reads; executed = true }))
          → IsExecuted d (
              run_call parse text_of note nonce ask o d
                (execute parse text_of note nonce ask calls))
      ran (failed f) k = (refl, h, tt)
      ran (done id) k = with_answer-IsExecuted id d _ k

  -- A response of the bridge without a call, whose text has the nonce.
  abbrev pub IsProven : Type 0
  IsProven =
      (left : ℕ) × (body : Body) × (response : Value) × (text : Codes) × ((ask left body >>= λ r.
      check_response (error_message r) r)
        ≡ done response)
      × (read_output parse text_of note nonce ask response ≡ done ([], text))
      × (has_part nonce text ≡ true)

  abbrev pub IsVerified : Outcome (Unit {0}) × Demo → Type 0
  IsVerified (done u, d) =
      (1 ≤ d.reads) × IsProven × (length d.requests ≤ 8) × All IsHonest d.requests
  IsVerified (failed f, d) = (length d.requests ≤ 8) × All IsHonest d.requests

  -- What holds between two requests, with the number that is left.
  record IsTidy (left : ℕ) (d : Demo) : Type 0 where
    read : HasRead d
    honest : All IsHonest d.requests
    bound : length d.requests + left ≤ 8

  halted : (left : ℕ) (d : Demo) (f : Failure) → IsTidy left d → IsVerified (failed f, d)
  halted left d f h = (omega (arith, h.bound), h.honest)

  executed-IsTidy :
      (left : ℕ) (d e : Demo) (o : Outcome (List (String × Codes)))
      → IsTidy left d
      → IsExecuted d (o, e)
      → IsTidy left e
  executed-IsTidy left d e o h (same, read, a) = record {
    read = read;
    honest = subst (All IsHonest) (sym same) h.honest;
    bound = subst (λ bodies. length bodies + left ≤ 8) (sym same) h.bound;
  }

  conclude-IsVerified :
      (left : ℕ) (text : Codes) (d : Demo)
      → IsTidy left d
      → (has_part nonce text ≡ true → IsProven)
      → IsVerified (conclude parse text_of note nonce ask text d)
  conclude-IsVerified left text d h proof =
      if_cases IsVerified (not d.executed) _ _ (λ never. (omega (arith, h.bound), h.honest))
        λ ran.
          if_cases IsVerified (not (has_part nonce text)) _ _
            (λ absent. (omega (arith, h.bound), h.honest))
            λ found. (
              h.read (not-false _ ran),
              proof (not-false _ found),
              omega (arith, h.bound),
              h.honest,
            )

  module _ (left : ℕ) (next : Body → Demo → Outcome (Unit {0}) × Demo)
      (goes_on : (b : Body) (d : Demo) → IsHonest b → IsTidy left d → IsVerified (next b d)) where
    go_on-IsVerified :
        (id : Value) (d : Demo) (r : Outcome (List (String × Codes)) × Demo)
        → IsTidy left d
        → IsExecuted d r
        → IsVerified (go_on parse text_of note nonce ask id r next)
    go_on-IsVerified id d (failed f, e) h k =
        halted left e f (executed-IsTidy left d e (failed f) h k)
    go_on-IsVerified id d (done input, e) h (same, read, a) =
        goes_on (continued id input) e a (executed-IsTidy left d e (done input) h (same, read, a))

    at_response-IsVerified :
        (id : Value) (r : Outcome (List Value × Codes)) (d : Demo)
        → IsTidy left d
        → ((text : Codes) → r ≡ done ([], text) → has_part nonce text ≡ true → IsProven)
        → IsVerified (at_response parse text_of note nonce ask id r d next)
    at_response-IsVerified id (failed f) d h proof = halted left d f h
    at_response-IsVerified id (done ([], text)) d h proof =
        conclude-IsVerified left text d h (proof text refl)
    at_response-IsVerified id (done (call ∷ calls, text)) d h proof =
        go_on-IsVerified id d _ h (execute-IsExecuted (call ∷ calls) d h.read)

    answered-IsVerified :
        (o : Outcome Value) (d : Demo)
        → IsTidy left d
        → ((response : Value) (text : Codes)
            → o ≡ done response
            → read_output parse text_of note nonce ask response ≡ done ([], text)
            → has_part nonce text ≡ true
            → IsProven)
        → IsVerified (answered parse text_of note nonce ask o d next)
    answered-IsVerified (failed f) d h proof = halted left d f h
    answered-IsVerified (done response) d h proof =
        at_response-IsVerified (get response "id") _ d h
          λ text e found. proof response text refl e found

  rounds-IsVerified :
      (left : ℕ) (body : Body) (d : Demo)
      → IsHonest body
      → IsTidy left d
      → IsVerified (rounds parse text_of note nonce ask left body d)
  unfolding rounds
  rounds-IsVerified zero body d b h = (omega (arith, h.bound), h.honest)
  rounds-IsVerified (suc left) body d b h =
      answered-IsVerified left (rounds parse text_of note nonce ask left) (rounds-IsVerified left) _
        _ (record { read = h.read; honest = (b, h.honest); bound = omega (arith, h.bound) })
        λ response text asked read found. (left, body, response, text, asked, read, found)

  -- Whatever the bridge answers: a run sends eight requests at most, and every tool output that it
  -- sends is the note. If it passes, it has read the note, and a response that the bridge gave has no
  -- tool call and a text with the nonce.
  pub run-IsVerified : IsVerified (run parse text_of note nonce ask)
  unfolding run new
  run-IsVerified =
      rounds-IsVerified 8 first _ tt
        (record { read = λ (e : false ≡ true). cc; honest = tt; bound = omega arith })
