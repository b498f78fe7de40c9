-- ===== src/Client/Demo.antt =====
-- examples/tool-client.mjs: the checks of `request`, and the loop of `run`. `JSON.parse`
-- and `String` of a value, the note and its nonce, and the answers of the bridge are inputs.
pub mod Verified
use codex_official_bridge.Prelude.{
  ℕ, zero, suc, ◌+◌, String, Bool, true, false, not, ◌&&◌, ◌||◌, Option, none, some, List, [], ◌∷◌,
  ◌++◌, ◌==◌, if◌then◌else◌,
}
use codex_official_bridge.Json.{
  Value, undefined, null, str, obj, arr, items, get, is_truthy, is_text, is_string, is_object,
  keys_of,
}
use codex_official_bridge.Text.{is_blank, strip_prefix}
use codex_official_bridge.Codes.{Codes, codes, same_codes}
use codex_official_bridge.Client.Sse.{error_message}

-- An `Error` by its text, the error of the bridge, by its message, or another exception.
pub data Failure : Type 0 where
  failure : String → Failure
  remote : (message : Value) → Failure
  other : Failure

pub data Outcome (A : Type 0) : Type 0 where
  done : A → Outcome A
  failed : Failure → Outcome A

infixl 5 ◌>>=◌
unfoldable pub ◌>>=◌ : {A B : Type 0} → Outcome A → (A → Outcome B) → Outcome B
done a >>= f = f a
failed e >>= f = failed e

-- `previous_response_id` and `input` of a body; the first has the task and the tool.
pub data Body : Type 0 where
  first : Body
  continued : (previous : Value) → List (String × Codes) → Body

-- The last checks of `request`: an error in the result, and the shape of a response.
abbrev pub check_response : (message : Value) → Value → Outcome Value
check_response message undefined = failed other
check_response message null = failed other
check_response message response =
    if is_truthy (get response "error")
      || is_text "failed" (get response "status")
      || is_text "incomplete" (get response "status")
    then failed (remote message)
    else if not (is_string (get response "id")) || not (is_truthy (get response "id"))
    then failed (failure "Bridge returned an invalid Responses object.")
    else elim (get response "output") [
      | arr entries ↦ done response
      | _ ↦ failed (failure "Bridge returned an invalid Responses object.")
    ]

abbrev pub list_of : Value → List Value
list_of (arr entries) = items entries
list_of _ = []

-- `values.filter(v => v.type === type)`, a `TypeError` at a value without properties.
unfoldable pub of_type : String → List Value → Outcome (List Value)
of_type type [] = done []
of_type type (undefined ∷ vs) = failed other
of_type type (null ∷ vs) = failed other
of_type type (v ∷ vs) =
    of_type type vs >>= λ rest. done (if is_text type (get v "type") then v ∷ rest else rest)

-- `messages.flatMap(item => item.content || [])`.
abbrev contents_of : Value → List Value
contents_of (arr entries) = items entries
contents_of v = if is_truthy v then v ∷ [] else []

abbrev pub flat_contents : List Value → List Value
flat_contents [] = []
flat_contents (v ∷ vs) = contents_of (get v "content") ++ flat_contents vs

abbrev is_empty : List String → Bool
is_empty [] = true
is_empty (k ∷ ks) = false

-- `text.startsWith(part)`, and `text.includes(part)`.
abbrev pub starts : Codes → Codes → Bool
starts [] text = true
starts (c ∷ part) [] = false
starts (c ∷ part) (d ∷ text) = same_codes (c ∷ []) (d ∷ []) && starts part text

unfoldable pub has_part : Codes → Codes → Bool
has_part part [] = starts part []
has_part part (c ∷ text) = starts part (c ∷ text) || has_part part text

-- What the program has done: its requests, the newest first, how often it read the note, and
-- whether `executed` is set.
pub record Demo : Type 0 where
  pub requests : List Body
  pub reads : ℕ
  pub executed : Bool

unfoldable pub new : Demo
new = record { requests = []; reads = 0; executed = false }

module _ (parse : Value → Option Value) (text_of : Value → Codes) (note nonce : Codes)
    (ask : ℕ → Body → Outcome Value) where
  abbrev join_texts : List Value → Codes
  join_texts [] = []
  join_texts (v ∷ []) = text_of (get v "text")
  join_texts (v ∷ w ∷ vs) = text_of (get v "text") ++ 10 ∷ join_texts (w ∷ vs)

  -- The joined text of the messages.
  unfoldable pub output_text : List Value → Outcome Codes
  output_text output = do
    messages ← of_type "message" output
    parts ← of_type "output_text" (flat_contents messages)
    done (join_texts parts)

  abbrev is_no_argument : Option Value → Bool
  is_no_argument none = false
  is_no_argument (some args) = is_object args && is_empty (keys_of args)

  abbrev bad_arguments : Option Value → Failure
  bad_arguments none = failure "read_local_note arguments must be a JSON object."
  bad_arguments (some args) = failure "read_local_note accepts only an empty argument object."

  abbrev with_arguments : String → Option Value → Outcome String
  with_arguments id args = if is_no_argument args then done id else failed (bad_arguments args)

  abbrev pub call_id_of : Value → Outcome String
  call_id_of (str id) =
      if id == "" then failed (failure "Tool call is missing call_id.") else done id
  call_id_of _ = failed (failure "Tool call is missing call_id.")

  -- The checks of one call, and its id.
  unfoldable pub check_call : Value → Outcome String
  check_call call =
      if not (is_text "read_local_note" (get call "name"))
      then failed (failure "Refusing unknown local tool.")
      else do id ← call_id_of (get call "call_id"); with_arguments id (parse (get call "arguments"))

  abbrev pub with_answer :
      String → Outcome (List (String × Codes)) × Demo → Outcome (List (String × Codes)) × Demo
  with_answer id (done rest, d) = (done ((id, note) ∷ rest), d)
  with_answer id (failed f, d) = (failed f, d)

  abbrev pub run_call :
      Outcome String
      → Demo
      → (Demo → Outcome (List (String × Codes)) × Demo)
      → Outcome (List (String × Codes)) × Demo
  run_call (failed f) d rest = (failed f, d)
  run_call (done id) d rest =
      with_answer id (rest (record d { reads = suc d.reads; executed = true }))

  -- The loop over the calls, which reads the note for each.
  unfoldable pub execute : List Value → Demo → Outcome (List (String × Codes)) × Demo
  execute [] d = (done [], d)
  execute (call ∷ calls) d = run_call (check_call call) d (execute calls)

  -- The calls and the text of a response.
  unfoldable pub read_output : Value → Outcome (List Value × Codes)
  read_output response = do
    calls ← of_type "function_call" (list_of (get response "output"))
    text ← output_text (list_of (get response "output"))
    done (calls, text)

  -- Without a call: whether the run passes.
  abbrev pub conclude : (text : Codes) → Demo → Outcome (Unit {0}) × Demo
  conclude text d =
      if not d.executed
      then (failed (failure "The model finished without calling the local tool."), d)
      else if not (has_part nonce text)
      then (failed (failure "The final answer did not contain the nonce from the local file."), d)
      else (done tt, d)

  abbrev pub go_on :
      (id : Value)
      → Outcome (List (String × Codes)) × Demo
      → (Body → Demo → Outcome (Unit {0}) × Demo)
      → Outcome (Unit {0}) × Demo
  go_on id (failed f, d) next = (failed f, d)
  go_on id (done input, d) next = next (continued id input) d

  abbrev pub at_response :
      (id : Value)
      → Outcome (List Value × Codes)
      → Demo
      → (Body → Demo → Outcome (Unit {0}) × Demo)
      → Outcome (Unit {0}) × Demo
  at_response id (failed f) d next = (failed f, d)
  at_response id (done ([], text)) d next = conclude text d
  at_response id (done (call ∷ calls, text)) d next = go_on id (execute (call ∷ calls) d) next

  abbrev pub answered :
      Outcome Value → Demo → (Body → Demo → Outcome (Unit {0}) × Demo) → Outcome (Unit {0}) × Demo
  answered (failed f) d next = (failed f, d)
  answered (done response) d next = at_response (get response "id") (read_output response) d next

  -- The loop over the responses, with how many are left of MAX_RESPONSES.
  unfoldable pub rounds : (left : ℕ) → Body → Demo → Outcome (Unit {0}) × Demo
  rounds zero body d =
      (failed (failure "Stopped after 8 responses without a verified final answer."), d)
  rounds (suc left) body d =
      answered (ask left body >>= λ r. check_response (error_message r) r)
        (record d { requests = body ∷ d.requests }) (rounds left)

  -- `run()`, between making and removing the directory.
  unfoldable pub run : Outcome (Unit {0}) × Demo
  unfolding rounds
  run = rounds 8 first new
