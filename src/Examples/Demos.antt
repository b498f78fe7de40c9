-- ===== src/Examples/Demos.antt =====
-- A run of the model of `run` of examples/tool-client.mjs on a concrete bridge.
use codex_official_bridge.Prelude.{ℕ, ◌≡◌, refl, Option, some}
use codex_official_bridge.Json.{
  Value, obj, field, end, str, arr, cons, nil, get, is_truthy, keys_of,
}
use codex_official_bridge.Codes.{Codes, codes}
use codex_official_bridge.Client.Demo.{
  Outcome, done, Body, first, continued, run, ◌>>=◌, read_output, of_type, output_text, execute,
  check_call, has_part,
}
use codex_official_bridge.Client.Demo.Verified.{IsVerified, run-IsVerified}

-- A bridge that calls the tool once and then answers with the note.
abbrev call : Value
call = obj (
    field "type" (str "function_call")
      (field "name" (str "read_local_note") (field "call_id" (str "c") end)))

abbrev answer : Value
answer = obj (
    field "type" (str "message")
      (field "content" (obj (field "type" (str "output_text") (field "text" (str "n") end))) end))

abbrev response : Value → Value
response entry = obj (field "id" (str "r") (field "output" (arr (cons entry nil)) end))

abbrev ask : ℕ → Body → Outcome Value
ask left first = done (response call)
ask left (continued previous input) = done (response answer)

abbrev no_arguments : Value → Option Value
no_arguments v = some (obj end)

abbrev as_text : Value → Codes
as_text v = codes "nonce"

run_result : (run no_arguments as_text (codes "nonce") (codes "nonce") ask).0 ≡ done tt
unfolding run ◌>>=◌ is_truthy get read_output of_type output_text execute check_call keys_of
    has_part
run_result = refl

run-IsVerified_example :
    IsVerified no_arguments as_text
      (codes "nonce")
      (codes "nonce")
      ask
      (run no_arguments as_text (codes "nonce") (codes "nonce") ask)
run-IsVerified_example = run-IsVerified no_arguments as_text (codes "nonce") (codes "nonce") ask
