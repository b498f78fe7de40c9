-- ===== src/WebSocket/Session.antt =====
-- scripts/verify-websocket.mjs, `openWebSocket`: the connection behind the upgrade. Timers, calls
-- and the events of the socket are steps; `randomBytes(4)` is an input. What is written, how the
-- promises of `receive` end, and how the socket is closed is appended to a log.
pub mod Log
pub mod Orderly
pub mod Stopped
pub mod Frames
pub mod Runs
pub mod Messages
pub mod Delivery
use codex_official_bridge.Prelude.{
  ℕ, zero, suc, ◌+◌, ◌/◌, ◌%◌, String, Bool, true, false, not, ◌&&◌, ◌||◌, Option, none, some, List,
  [], ◌∷◌, ◌++◌, length, ltb, leb, nat_eq, if◌then◌else◌,
}
use codex_official_bridge.Codes.{Codes, take}
use codex_official_bridge.WebSocket.Frame.{
  Frame, u16, encode_frame, big_endian, Decoder, drained, thrown, out_of_fuel, on_chunk,
}
use codex_official_bridge.WebSocket.Frame.Chunks.{concat}

pub data Event : Type 0 where
  close_event : (code : ℕ) → Event
  text_event : (payload : Codes) → Event
  binary_event : (payload : Codes) → Event

pub data Output : Type 0 where
  written : (bytes : Codes) → Output
  resolved : (id : ℕ) → Event → Output
  rejected : (id : ℕ) → (reason : String) → Output
  half_closed : Output
  destroyed : Output

-- An item of `waiters` is a number, the next one for every call of `receive`. `timers` has the
-- items whose timer is set.
pub record Session : Type 0 where
  pub queue : List Event
  pub waiters : List ℕ
  pub timers : List ℕ
  pub next_id : ℕ
  pub ended : Option String
  pub sent_close : Bool
  pub fragment_opcode : Option ℕ
  pub fragments : List Codes
  pub fragment_bytes : ℕ
  pub masks : ℕ
  pub log : List Output

unfoldable pub new : Session
new = record {
  queue = [];
  waiters = [];
  timers = [];
  next_id = 0;
  ended = none;
  sent_close = false;
  fragment_opcode = none;
  fragments = [];
  fragment_bytes = 0;
  masks = 0;
  log = [];
}

abbrev pub emit : Output → Session → Session
emit o s = record s { log = s.log ++ o ∷ [] }

-- `clearTimeout` and `splice`, on the first item that is the same.
unfoldable pub remove : ℕ → List ℕ → List ℕ
remove id [] = []
remove id (w ∷ rest) = if nat_eq w id then rest else w ∷ remove id rest

unfoldable pub contains : ℕ → List ℕ → Bool
contains id [] = false
contains id (w ∷ rest) = nat_eq w id || contains id rest

abbrev pub hand_over : Event → List ℕ → Session → Session
hand_over event [] s = record s { queue = s.queue ++ event ∷ [] }
hand_over event (w ∷ rest) s =
    emit (resolved w event) (record s { waiters = rest; timers = remove w s.timers })

unfoldable pub push : Event → Session → Session
push event s = hand_over event s.waiters s

-- The loop of `stop` over `waiters.splice(0)`.
unfoldable pub reject_waiters : String → List ℕ → Session → Session
reject_waiters reason [] s = s
reject_waiters reason (w ∷ rest) s =
    reject_waiters reason rest (emit (rejected w reason) (record s { timers = remove w s.timers }))

abbrev pub stop_open : String → Option String → Session → Session
stop_open reason (some e) s = s
stop_open reason none s =
    reject_waiters reason s.waiters (record s { ended = some reason; waiters = [] })

unfoldable pub stop : String → Session → Session
stop reason s = stop_open reason s.ended s

abbrev pub wait_or : Option String → Session → Session
wait_or (some reason) s = emit (rejected s.next_id reason) (record s { next_id = suc s.next_id })
wait_or none s = record s {
  waiters = s.waiters ++ s.next_id ∷ [];
  timers = s.timers ++ s.next_id ∷ [];
  next_id = suc s.next_id;
}

abbrev pub first_event : List Event → Session → Session
first_event (e ∷ rest) s =
    emit (resolved s.next_id e) (record s { queue = rest; next_id = suc s.next_id })
first_event [] s = wait_or s.ended s

unfoldable pub receive : Session → Session
receive s = first_event s.queue s

-- The timer of an item, where it is set.
unfoldable pub on_timeout : ℕ → Session → Session
on_timeout id s =
    if contains id s.timers
    then emit (rejected id "websocket_receive_timeout")
        (record s { timers = remove id s.timers; waiters = remove id s.waiters })
    else s

abbrev pub close_code : Codes → ℕ
close_code payload = if leb 2 (length payload) then big_endian 0 (take 2 payload) else 1005

abbrev pub is_data : ℕ → Bool
is_data opcode = nat_eq opcode 0 || nat_eq opcode 1 || nat_eq opcode 2

abbrev pub is_open : Option ℕ → Bool
is_open none = false
is_open (some opcode) = true

abbrev pub message_event : Option ℕ → Codes → Event
message_event (some opcode) payload =
    if nat_eq opcode 1 then text_event payload else binary_event payload
message_event none payload = binary_event payload

abbrev pub begin_message : ℕ → Session → Session
begin_message opcode s = if nat_eq opcode 0 then s else record s { fragment_opcode = some opcode }

abbrev pub add_fragment : Codes → Session → Session
add_fragment payload s = record s {
  fragments = s.fragments ++ payload ∷ [];
  fragment_bytes = s.fragment_bytes + length payload;
}

abbrev pub reset_fragments : Session → Session
reset_fragments s = record s { fragments = []; fragment_bytes = 0; fragment_opcode = none }

abbrev pub finish_message : Bool → Session → Session
finish_message fin s =
    if fin
    then reset_fragments (push (message_event s.fragment_opcode (concat s.fragments)) s)
    else s

module _ (random : ℕ → Codes) where
  -- `socket.write(encodeFrame(payload, { opcode, masked, fin }))`; a mask is drawn where one is used.
  unfoldable pub write : (payload : Codes) → (opcode : ℕ) → (masked fin : Bool) → Session → Session
  write payload opcode true fin s =
      emit (written (encode_frame payload opcode (some (random s.masks)) fin))
        (record s { masks = suc s.masks })
  write payload opcode false fin s = emit (written (encode_frame payload opcode none fin)) s

  unfoldable pub reply_close : Codes → Session → Session
  reply_close payload s =
      if s.sent_close then s else write payload 8 true true (record s { sent_close = true })

  -- `writeUInt16BE` throws a larger code, before anything is changed.
  unfoldable pub close : (code : ℕ) → Session → Session
  close code s =
      if s.sent_close || ltb 65535 code
      then s
      else write (u16 code) 8 true true (record s { sent_close = true })

  module _ (max_bytes : ℕ) where
    abbrev pub add_data : Frame → Session → Option String × Session
    add_data f s =
        let t = add_fragment f.payload (begin_message f.opcode s) in
        if ltb max_bytes t.fragment_bytes
        then (some "websocket_message_too_large", t)
        else (none, finish_message f.fin t)

    -- The frames of data: an operation of its own, or in the order of a message's parts.
    abbrev pub on_data_frame : Frame → Session → Option String × Session
    on_data_frame f s =
        if not (is_data f.opcode)
        then (some "unexpected_websocket_opcode", s)
        else if nat_eq f.opcode 0 && not (is_open s.fragment_opcode)
        then (some "unexpected_continuation", s)
        else if not (nat_eq f.opcode 0) && is_open s.fragment_opcode
        then (some "interleaved_fragments", s)
        else add_data f s

    -- The function that `frameDecoder` is given.
    unfoldable pub on_frame : Frame → Session → Option String × Session
    on_frame f s =
        if f.masked
        then (some "masked_server_frame", s)
        else if nat_eq f.opcode 9
        then (none, write f.payload 10 true true s)
        else if nat_eq f.opcode 10
        then (none, s)
        else if nat_eq f.opcode 8
        then (
          none,
          emit half_closed (reply_close f.payload (push (close_event (close_code f.payload)) s)),
        )
        else on_data_frame f s

    -- The decoder with the session as its state. Behind a throw the socket is destroyed, and gives
    -- no data.
    abbrev pub Connection : Type 0
    Connection = Decoder max_bytes on_frame

    abbrev pub on_session : (Session → Session) → Connection → Connection
    on_session f (drained buffered s) = drained buffered (f s)
    on_session f (thrown reason s) = thrown reason (f s)
    on_session f out_of_fuel = out_of_fuel

    abbrev pub broken_off : Connection → Connection
    broken_off (drained buffered s) = drained buffered s
    broken_off (thrown reason s) = thrown reason (emit destroyed (stop reason s))
    broken_off out_of_fuel = out_of_fuel

    unfoldable pub consume : Codes → Connection → Connection
    consume chunk (drained buffered s) =
        broken_off (on_chunk max_bytes on_frame chunk (drained buffered s))
    consume chunk c = c

    pub data Step : Type 0 where
      reads : (chunk : Codes) → Step
      fails : Step
      ends : Step
      receives : Step
      times_out : (id : ℕ) → Step
      sends : (payload : Codes) → (opcode : ℕ) → (masked fin : Bool) → Step
      closes : (code : ℕ) → Step
      terminates : Step

    unfoldable pub step : Step → Connection → Connection
    step (reads chunk) = consume chunk
    step fails = on_session (stop "websocket_socket_error")
    step ends = on_session (stop "websocket_closed")
    step receives = on_session receive
    step (times_out id) = on_session (on_timeout id)
    step (sends payload opcode masked fin) = on_session (write payload opcode masked fin)
    step (closes code) = on_session (close code)
    step terminates = on_session (emit destroyed)

    unfoldable pub run : List Step → Connection → Connection
    run [] c = c
    run (e ∷ es) c = run es (step e c)
