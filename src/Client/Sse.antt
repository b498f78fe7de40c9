-- ===== src/Client/Sse.antt =====
-- examples/tool-client.mjs: `readSse`. A text is the list of its codes; the decoder of bytes and
-- `JSON.parse` are the platform's.
pub mod Chunks
pub mod Events
use codex_official_bridge.Prelude.{
  ℕ, ◌+◌, String, Bool, true, false, not, ◌&&◌, ◌||◌, Option, none, some, List, [], ◌∷◌, ◌++◌,
  length, ltb, nat_eq, if◌then◌else◌,
}
use codex_official_bridge.Json.{Value, undefined, null, str, get, is_truthy, is_text}
use codex_official_bridge.Codes.{Codes, codes, same_codes, is_break}

-- What stops the reader: an `Error` with a text, or another exception.
pub data Failure : Type 0 where
  failure : String → Failure
  -- `${type}: ${errorMessage(event)}`, with the type of the event and its name.
  reported : (type : Value) → (name : Codes) → (message : Value) → Failure
  other : Failure

-- The variables of `readSse` behind the buffer.
pub record Parser : Type 0 where
  pub event_name : Codes
  pub data_lines : List Codes
  pub completed : Option Value

pub record Reader : Type 0 where
  pub buffer : Codes
  pub parser : Parser

pub data Reading (A : Type 0) : Type 0 where
  going : A → Reading A
  broken : Failure → Reading A

abbrev pub fresh : Parser
fresh = record { event_name = []; data_lines = []; completed = none }

infixl 5 ◌>>=◌
unfoldable pub ◌>>=◌ : {A B : Type 0} → Reading A → (A → Reading B) → Reading B
going a >>= f = f a
broken e >>= f = broken e

-- `lines.join('\n')`.
abbrev pub join_lines : List Codes → Codes
join_lines [] = []
join_lines (line ∷ []) = line
join_lines (line ∷ next ∷ rest) = line ++ 10 ∷ join_lines (next ∷ rest)

abbrev pub first_truthy : Value → Value → Value
first_truthy a b = if is_truthy a then a else b

-- `errorMessage(value)`.
unfoldable pub error_message : Value → Value
error_message value = first_truthy (get (get value "error") "message") (
    first_truthy (get (get (get value "response") "error") "message")
      (first_truthy (get value "message") (str "Unknown bridge error")))

-- `event.type || namedType`, compared with a text.
abbrev pub is_type : String → Value → (name : Codes) → Bool
is_type type event name =
    if is_truthy (get event "type")
    then is_text type (get event "type")
    else same_codes name (codes type)

abbrev pub is_failure : Value → (name : Codes) → Bool
is_failure event name =
    is_type "error" event name
    || is_type "response.failed" event name
    || is_type "response.incomplete" event name

module _ (parse : Codes → Option Value) where
  -- The event of `dispatch`, once it is parsed.
  unfoldable pub take_event : Value → (name : Codes) → Parser → Reading Parser
  unfolding error_message
  take_event event name p =
      if is_failure event name
      then broken (reported (get event "type") name (error_message event))
      else if is_type "response.completed" event name
      then (if is_truthy (get event "response")
          then going (record p { completed = some (get event "response") })
          else broken (failure "response.completed is missing its response object."))
      else going p

  abbrev pub parsed : Option Value → (name : Codes) → Parser → Reading Parser
  parsed none name p = broken (failure "Bridge returned invalid SSE JSON.")
  parsed (some undefined) name p = broken other
  parsed (some null) name p = broken other
  parsed (some event) name p = take_event event name p

  -- `dispatch`, from the data and the name on.
  unfoldable pub handle : (name content : Codes) → Parser → Reading Parser
  unfolding take_event
  handle name [] p = going p
  handle name (c ∷ cs) p =
      if same_codes (c ∷ cs) (codes "[DONE]") then going p else parsed (parse (c ∷ cs)) name p

  unfoldable pub dispatch : Parser → Reading Parser
  unfolding handle
  dispatch p =
      handle p.event_name (join_lines p.data_lines) (record p { event_name = []; data_lines = [] })

  -- The field and the content of a line, at its first colon.
  abbrev pub cut : Codes → Codes → Codes × Codes
  cut field [] = (field, [])
  cut field (c ∷ cs) =
      let rest = cut (field ++ c ∷ []) cs in if nat_eq c b':' then (field, cs) else rest

  -- `if (content.startsWith(' ')) content = content.slice(1)`.
  abbrev pub drop_space : Codes → Codes
  drop_space [] = []
  drop_space (c ∷ cs) = if nat_eq c b' ' then cs else c ∷ cs

  abbrev pub set_field : Codes → Codes → Parser → Parser
  set_field field content p =
      if same_codes field (codes "event")
      then record p { event_name = content }
      else if same_codes field (codes "data")
      then record p { data_lines = p.data_lines ++ content ∷ [] }
      else p

  -- `line(value)`.
  unfoldable pub line : Codes → Parser → Reading Parser
  unfolding dispatch
  line [] p = dispatch p
  line (c ∷ cs) p =
      if nat_eq c b':'
      then going p
      else let (field, content) = cut [] (c ∷ cs) in going (set_field field (drop_space content) p)

  -- `drain(atEnd)`: `before` is the part of the buffer in which no break was found.
  unfoldable pub scan : (at_end : Bool) → (before rest : Codes) → Parser → Reading Reader
  scan at_end before [] p = going (record { buffer = before; parser = p })
  scan at_end before (c ∷ []) p =
      if is_break c && (at_end || not (nat_eq c 13))
      then line before p >>= scan at_end [] []
      else going (record { buffer = before ++ c ∷ []; parser = p })
  scan at_end before (c ∷ d ∷ cs) p =
      let more = scan at_end (before ++ c ∷ []) (d ∷ cs) p in
      elim (is_break c) [
        | false ↦ more
        | true ↦ elim (nat_eq c 13 && nat_eq d 10) [
          | true ↦ line before p >>= scan at_end [] cs
          | false ↦ line before p >>= scan at_end [] (d ∷ cs)
        ]
      ]

  -- A chunk of the body arrives: the buffer grows, and its lines are read.
  unfoldable pub feed : Codes → Reader → Reading Reader
  feed chunk r = scan false [] (r.buffer ++ chunk) r.parser

  abbrev last_line : Codes → Parser → Reading Parser
  last_line [] p = going p
  last_line (c ∷ cs) p = line (c ∷ cs) p

  -- `drain(true)`.
  unfoldable pub finish : Reader → Reading Parser
  finish r = do
    all ← scan true [] r.buffer r.parser
    rest ← last_line all.buffer all.parser
    dispatch rest

  abbrev pub result_of : Option Value → Reading Value
  result_of none = broken (failure "SSE ended without response.completed.")
  result_of (some v) = going v

  -- The loop over the chunks, with the size of the bytes so far, and of each chunk.
  unfoldable pub read_chunks : (limit size : ℕ) → List (ℕ × Codes) → Reader → Reading Value
  read_chunks limit size [] r = do all ← finish r; result_of all.completed
  read_chunks limit size ((n, chunk) ∷ chunks) r =
      let rest = feed chunk r >>= read_chunks limit (size + n) chunks in
      if ltb limit (size + n)
      then broken (failure "Bridge SSE exceeded the demo size limit.")
      else rest
