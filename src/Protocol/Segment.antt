-- ===== src/Protocol/Segment.antt =====
-- src/protocol.mjs: `ResponseSegment`. A method is an action on the segment. An item of `output` is
-- shared by the array and by `messages` in the source; here `messages` holds its index alone.
pub mod Methods
mod Frame
pub mod Log
pub mod Faithful
pub mod Streaming
pub mod Order
use codex_official_bridge.Prelude.{
  ℕ, suc, zero, String, Bool, true, false, not, ◌&&◌, Option, none, some, List, [], ◌∷◌, ◌++◌, ◌==◌,
  ◌⊕◌, length, get_elem?, set, includes, if◌then◌else◌,
}
use codex_official_bridge.Json.{Value, undefined, null, bool, num, str, strict_eq, is_truthy, get}
use codex_official_bridge.Json.Print.{stringify}
use codex_official_bridge.Text.{strip_prefix}
use codex_official_bridge.Protocol.Error.{
  Thrown, bridge, other, bridge_error, BridgeError, ErrorBody, error_body, ok, throw,
}
use codex_official_bridge.Action.{Action, pure, raise, gets, modify, when, for_each, ◌>>=◌, ◌>>◌}

pub data Status : Type 0 where
  in_progress completed failed : Status

pub record Message : Type 0 where
  pub id : String
  pub status : Status
  pub text : String
  pub phase : Option Value

pub record Call : Type 0 where
  pub id : String
  pub status : Status
  pub call_id : String
  pub name : String
  pub arguments : String

pub data Item : Type 0 where
  message : Message → Item
  function_call : Call → Item

pub record Response : Type 0 where
  pub id : String
  pub created_at : ℕ
  pub status : Status
  pub model : Option String
  pub previous_response_id : Option String
  pub output : List Item
  pub usage : Value
  pub error : Option ErrorBody

-- What `emit` sends, without the sequence number. `message_added` has no content yet.
pub data Event : Type 0 where
  created began ended broke : Response → Event
  message_added : ℕ → (id : String) → (phase : Option Value) → Event
  call_added item_done : ℕ → Item → Event
  part_added text_delta text_done part_done : (id : String) → ℕ → (text : String) → Event
  arguments_delta arguments_done : (id : String) → ℕ → (text : String) → Event

pub record Segment : Type 0 where
  -- `onEvent`: what it throws, if it does, given what it was called with before.
  pub on_event : List (ℕ × Event) → ℕ × Event → Option Thrown
  -- The texts that `randomUUID` gives in this segment.
  pub uuid : ℕ → String
  -- The events that `onEvent` took without throwing, the newest first.
  pub emitted : List (ℕ × Event)
  pub sequence : ℕ
  pub messages : List (Value × ℕ)
  pub done_items : List String
  pub finished : Bool
  pub response : Response

-- `new ResponseSegment(model, previousId, onEvent)`, at the time `created_at`.
unfoldable pub new :
    (model : Option String) (previous_id : Option String)
    → (List (ℕ × Event) → ℕ × Event → Option Thrown)
    → (uuid : ℕ → String) (created_at : ℕ) → Segment
new model previous_id on_event uuid created_at = record {
  on_event = on_event;
  uuid = uuid;
  emitted = [];
  sequence = 0;
  messages = [];
  done_items = [];
  finished = false;
  response = record {
    id = "resp_bridge_" ⊕ uuid 0;
    created_at = created_at;
    status = in_progress;
    model = model;
    previous_response_id = previous_id;
    output = [];
    usage = null;
    error = none;
  };
}

-- `emit`: the number is taken before `onEvent` is called.
unfoldable pub emit : Event → Action Segment (Unit {0})
emit e s =
    let numbered = record s { sequence = suc s.sequence } in
    elim (s.on_event s.emitted (s.sequence, e)) [
      | none ↦ (ok tt, record numbered { emitted = (s.sequence, e) ∷ s.emitted })
      | some thrown ↦ (throw thrown, numbered)
    ]

unfoldable pub start : Action Segment (Unit {0})
start = do response ← gets (λ s. s.response); emit (created response); emit (began response)

abbrev pub blank : Message
blank = record { id = ""; status = in_progress; text = ""; phase = none }

abbrev pub as_message : Option Item → Message
as_message (some (message m)) = m
as_message _ = blank

-- The message that an entry of `messages` shares with `output`.
abbrev pub message_at : ℕ → Segment → Message
message_at i s = as_message (get_elem? s.response.output i)

abbrev pub put_item : ℕ → Item → Segment → Segment
put_item i item s = record s {
  response = record s.response { output = set s.response.output i item };
}

-- `this.response.output.push(item)`.
abbrev pub push_item : Item → Segment → Segment
push_item item s = record s {
  response = record s.response { output = s.response.output ++ item ∷ [] };
}

unfoldable pub find_entry : List (Value × ℕ) → Value → Option ℕ
find_entry [] key = none
find_entry ((k, i) ∷ rest) key = if strict_eq k key then some i else find_entry rest key

-- `...(phase ? { phase } : {})`.
abbrev pub phase_of : Value → Option Value
phase_of v = if is_truthy v then some v else none

-- The branch of `message` that makes an entry; the id is the UUID after those of the items before.
unfoldable pub add_message : Value → Value → Action Segment ℕ
add_message item_id phase = do
  index ← gets (λ s. length s.response.output)
  id ← gets (λ s. "msg_bridge_" ⊕ s.uuid (suc index))
  let item : Message = record { id = id; status = in_progress; text = ""; phase = phase_of phase }
  modify (push_item (message item))
  modify (λ s. record s { messages = s.messages ++ (item_id, index) ∷ [] })
  emit (message_added index id (phase_of phase))
  emit (part_added id index "")
  pure index

abbrev pub found_or_added : Value → Value → Option ℕ → Action Segment ℕ
found_or_added item_id phase (some index) = pure index
found_or_added item_id phase none = add_message item_id phase

-- `message(itemId, phase)`, by the index of its entry.
unfoldable pub open_message : Value → Value → Action Segment ℕ
open_message item_id phase = do
  found ← gets (λ s. find_entry s.messages item_id)
  found_or_added item_id phase found

abbrev pub is_done : ℕ → Segment → Bool
is_done i s = includes s.done_items (message_at i s).id

abbrev pub late_text : Thrown
late_text =
    bridge (
      bridge_error 502 "invalid_upstream_event" "Received text after a completed output item." none)

abbrev pub append_text : ℕ → String → Segment → Segment
append_text i delta s =
    put_item i (message (record (message_at i s) { text = (message_at i s).text ⊕ delta })) s

-- The end of `textDelta`: the text grows, and the delta is sent.
unfoldable pub stream_text : ℕ → String → Action Segment (Unit {0})
stream_text index delta = do
  modify (append_text index delta)
  item ← gets (message_at index)
  emit (text_delta item.id index delta)

-- `textDelta` behind its first test.
unfoldable pub add_text : Value → String → Action Segment (Unit {0})
add_text item_id delta = do
  index ← open_message item_id undefined
  done ← gets (is_done index)
  if done then raise late_text else stream_text index delta

unfoldable pub text_delta_of : Value → String → Action Segment (Unit {0})
text_delta_of item_id delta = do
  finished ← gets (λ s. s.finished)
  if finished then pure tt else if delta == "" then pure tt else add_text item_id delta

-- `finishMessage` behind its first test.
unfoldable pub mark_done : ℕ → Action Segment (Unit {0})
mark_done index = do
  modify (λ s. record s { done_items = s.done_items ++ (message_at index s).id ∷ [] })
  modify (λ s. put_item index (message (record (message_at index s) { status = completed })) s)
  item ← gets (message_at index)
  emit (text_done item.id index item.text)
  emit (part_done item.id index item.text)
  emit (item_done index (message item))

-- `finishMessage(item, index)`.
unfoldable pub finish_message : ℕ → Action Segment (Unit {0})
finish_message index = do done ← gets (is_done index); if done then pure tt else mark_done index

abbrev pub differs : Thrown
differs = bridge (
    bridge_error 502 "invalid_upstream_event" "Completed message differs from its streamed text."
      none)

-- `if (raw.phase) item.phase = raw.phase`.
abbrev pub set_phase : ℕ → Value → Segment → Segment
set_phase i phase s =
    if is_truthy phase
    then put_item i (message (record (message_at i s) { phase = some phase })) s
    else s

-- `raw.text.startsWith(current)`, which throws a `TypeError` at what is no text.
abbrev pub rest_of : String → Value → Option (Option String)
rest_of current (str text) = some (strip_prefix current text)
rest_of current _ = none

abbrev pub stream_rest : Value → Option (Option String) → Action Segment (Unit {0})
stream_rest item_id none = raise other
stream_rest item_id (some none) = raise differs
stream_rest item_id (some (some rest)) = text_delta_of item_id rest

-- `completeMessage` behind its first test.
unfoldable pub close_message : Value → Action Segment (Unit {0})
close_message raw = do
  index ← open_message (get raw "id") (get raw "phase")
  done ← gets (is_done index)
  if done then pure tt else do
    current ← gets (λ s. (message_at index s).text)
    stream_rest (get raw "id") (rest_of current (get raw "text"))
    modify (set_phase index (get raw "phase"))
    finish_message index

unfoldable pub complete_message : Value → Action Segment (Unit {0})
complete_message raw = do
  finished ← gets (λ s. s.finished)
  if finished then pure tt else close_message raw

-- `toolCall(callId, name, args)`.
unfoldable pub tool_call : (call_id name : String) → Value → Action Segment (Unit {0})
tool_call call_id name args = do
  index ← gets (λ s. length s.response.output)
  id ← gets (λ s. "fc_bridge_" ⊕ s.uuid (suc index))
  let item : Call = record {
    id = id;
    status = in_progress;
    call_id = call_id;
    name = name;
    arguments = "";
  }
  modify (push_item (function_call item))
  emit (call_added index (function_call item))
  let text = stringify args
  modify (put_item index (function_call (record item { arguments = text })))
  emit (arguments_delta id index text)
  emit (arguments_done id index text)
  let done : Call = record item { arguments = text; status = completed }
  modify (put_item index (function_call done))
  emit (item_done index (function_call done))

abbrev pub close_response : Value → Segment → Segment
close_response usage s = record s {
  finished = true;
  response = record s.response { status = completed; usage = usage };
}

-- `finish(usage)`.
unfoldable pub finish : Value → Action Segment Response
finish usage = do
  finished ← gets (λ s. s.finished)
  if finished then gets (λ s. s.response) else do
    entries ← gets (λ s. s.messages)
    for_each (λ e. finish_message e.1) entries
    modify (close_response usage)
    response ← gets (λ s. s.response)
    emit (ended response)
    pure response

abbrev pub break_response : Thrown → Segment → Segment
break_response e s = record s {
  finished = true;
  response = record s.response { status = failed; error = some (error_body e) };
}

-- `fail(error)`.
unfoldable pub fail : Thrown → Action Segment (Unit {0})
fail e = do
  finished ← gets (λ s. s.finished)
  if finished
      then pure tt
      else do modify (break_response e); response ← gets (λ s. s.response); emit (broke response)
