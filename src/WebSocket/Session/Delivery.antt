-- ===== src/WebSocket/Session/Delivery.antt =====
-- scripts/verify-websocket.mjs: messages on their way from a server to the calls of `receive`, from
-- the bytes of their frames on.
use codex_official_bridge.Prelude.{
  ℕ, ◌^◌, ◌≤◌, ◌<◌, ◌≡◌, refl, ap, ap₂, sym, ◌∙◌, String, Bool, true, false, ◌⊎◌, inl, inr, Option,
  none, some, List, [], ◌∷◌, ◌++◌, append-nil, append_assoc, map, length, length-append, All,
  All-append, if◌then◌else◌, arith,
}
use codex_official_bridge.Codes.{Codes}
use codex_official_bridge.WebSocket.Frame.{
  Frame, drained, thrown, out_of_fuel, handled, on_chunk, on_chunks,
}
use codex_official_bridge.WebSocket.Frame.Chunks.{concat}
use codex_official_bridge.WebSocket.Frame.RoundTrip.{
  Sent, bytes_of, frame_of, IsSendable, follow, on_chunks-encode_frame,
}
use codex_official_bridge.WebSocket.Session.{
  Event, text_event, binary_event, message_event, Session, on_frame, Connection, broken_off,
  consume, reads, step, run,
}
use codex_official_bridge.WebSocket.Session.Log.{events}
use codex_official_bridge.WebSocket.Session.Messages.{
  Part, piece, ping, pong, frames, whole, IsWithin, IsIdle, Reaches, follow-frames,
}

pub record Message : Type 0 where
  pub binary : Bool
  pub parts : List Part
  pub last : Codes

abbrev pub opcode_of : Message → ℕ
opcode_of m = if m.binary then 2 else 1

abbrev pub event_of : Message → Event
event_of m =
    if m.binary then binary_event (whole m.parts m.last) else text_event (whole m.parts m.last)

abbrev pub all_frames : List Message → List Frame
all_frames [] = []
all_frames (m ∷ ms) = frames (opcode_of m) m.parts m.last ++ all_frames ms

-- How a server calls `encodeFrame`.
abbrev pub unmasked : Frame → Sent
unmasked f = record { payload = f.payload; opcode = f.opcode; mask = none; fin = f.fin }

abbrev pub stream : List Message → Codes
stream ms = concat (map bytes_of (map unmasked (all_frames ms)))

abbrev pub IsShort : Part → Type 0
IsShort (piece p) = Unit
IsShort (ping p) = length p ≤ 125
IsShort (pong p) = length p ≤ 125

abbrev pub IsDeliverable : (max_bytes : ℕ) → Message → Type 0
IsDeliverable max_bytes m = (length (whole m.parts m.last) ≤ max_bytes) × All IsShort m.parts

opcode_of-small : (b : Bool) → (if b then 2 else 1) < 8
opcode_of-small true = omega arith
opcode_of-small false = omega arith

opcode_of-cases : (m : Message) → (opcode_of m ≡ 1) ⊎ (opcode_of m ≡ 2)
opcode_of-cases m = ground arith

message_event-known :
    (b : Bool) (c : Codes)
    → message_event (some (if b then 2 else 1)) c ≡ (if b then binary_event c else text_event c)
message_event-known true c = refl
message_event-known false c = refl

module _ (max_bytes : ℕ) (wide : 125 ≤ max_bytes) (bound : max_bytes < 2 ^ 64) where
  abbrev SendsAll : List Frame → Type 0
  SendsAll fs = All (λ f. (f.masked ≡ false) × IsSendable max_bytes (unmasked f)) fs

  unmasked-SendsAll : (fs : List Frame) → SendsAll fs → All (IsSendable max_bytes) (map unmasked fs)
  unmasked-SendsAll [] h = tt
  unmasked-SendsAll (f ∷ fs) ((_, p), h) = (p, unmasked-SendsAll fs h)

  frame_of-unmasked : (fs : List Frame) → SendsAll fs → map frame_of (map unmasked fs) ≡ fs
  frame_of-unmasked [] h = refl
  frame_of-unmasked (f ∷ fs) ((e, _), h) =
      ap₂ (λ m rest. record f { masked = m } ∷ rest) (sym e) (frame_of-unmasked fs h)

  frames-SendsAll :
      (opcode : ℕ) (parts : List Part) (last : Codes)
      → opcode < 8
      → length (whole parts last) ≤ max_bytes
      → All IsShort parts
      → SendsAll (frames opcode parts last)
  frames-SendsAll opcode [] last op small h =
      ((refl, (omega arith, small, omega arith, inl op, tt)), tt)
  frames-SendsAll opcode (piece p ∷ parts) last op small (_, h) =
      let both = length-append p (whole parts last) in
      (
        (refl, (omega arith, omega (arith, small, both), omega (arith, small, both), inl op, tt)),
        frames-SendsAll 0 parts last (omega arith) (omega (arith, small, both)) h,
      )
  frames-SendsAll opcode (ping p ∷ parts) last op small (short, h) = (
    (refl, (omega arith, omega (arith, short), omega (arith, short), inr (refl, short), tt)),
    frames-SendsAll opcode parts last op small h,
  )
  frames-SendsAll opcode (pong p ∷ parts) last op small (short, h) = (
    (refl, (omega arith, omega (arith, short), omega (arith, short), inr (refl, short), tt)),
    frames-SendsAll opcode parts last op small h,
  )

  all_frames-SendsAll :
      (ms : List Message) → All (IsDeliverable max_bytes) ms → SendsAll (all_frames ms)
  all_frames-SendsAll [] h = tt
  all_frames-SendsAll (m ∷ ms) ((small, short), h) =
      All-append _ (frames (opcode_of m) m.parts m.last) (all_frames ms)
        (frames-SendsAll (opcode_of m) m.parts m.last (opcode_of-small m.binary) small short)
        (all_frames-SendsAll ms h)

  module _ (random : ℕ → Codes) where
    abbrev followed : List Frame → Session → Connection random max_bytes
    followed = follow max_bytes (on_frame random max_bytes)

    -- The frames behind others that the decoder drains.
    handled-append :
        (out : Option String × Session) (xs ys : List Frame) (t : Session)
        → ((s : Session) → followed xs s ≡ drained [] t → followed (xs ++ ys) s ≡ followed ys t)
        → handled max_bytes (on_frame random max_bytes) out (followed xs) ≡ drained [] t
        → handled max_bytes (on_frame random max_bytes) out (followed (xs ++ ys)) ≡ followed ys t
    handled-append (none, s) xs ys t behind e = behind s e
    handled-append (some reason, s) xs ys t behind e = cc

    drained-state :
        (b c : Codes) (s t : Session)
        → ◌≡◌ {A = Connection random max_bytes} (drained b s) (drained c t)
        → s ≡ t
    drained-state b c s t e = cc

    follow-append :
        (xs ys : List Frame) (s t : Session)
        → followed xs s ≡ drained [] t
        → followed (xs ++ ys) s ≡ followed ys t
    follow-append [] ys s t e = ap (followed ys) (drained-state [] [] s t e)
    follow-append (x ∷ xs) ys s t e =
        handled-append (on_frame random max_bytes x s) xs ys t (λ u. follow-append xs ys u t) e

    begins :
        (m : Message) (s : Session)
        → IsIdle random max_bytes s
        → IsWithin (opcode_of m) (opcode_of m) [] s
    begins m s (closed, empty, none_counted, apart) = record {
      position = inl (opcode_of-cases m, refl, closed);
      pieces = ap concat empty;
      counted = none_counted;
      apart = apart;
    }

    all_frames-Reaches :
        (ms : List Message) (s : Session)
        → IsIdle random max_bytes s
        → All (IsDeliverable max_bytes) ms
        → Reaches random max_bytes (followed (all_frames ms) s) (events s) (map event_of ms)
    all_frames-Reaches [] s idle h = (s, refl, sym (append-nil (events s)), idle)
    all_frames-Reaches (m ∷ ms) s idle ((small, short), h) =
        let (t, drains, grows, rest) =
          follow-frames random max_bytes m.parts m.last (opcode_of m) (opcode_of m) [] s
            (begins m s idle) small in
        let (u, drains_all, grows_all, rest_all) = all_frames-Reaches ms t rest h in
        (
          u,
          follow-append (frames (opcode_of m) m.parts m.last) (all_frames ms) s t drains
              ∙ drains_all,
          grows_all
              ∙ ap (λ xs. xs ++ map event_of ms)
                  (grows
                    ∙ ap (λ e. events s ++ e ∷ [])
                        (message_event-known m.binary (whole m.parts m.last)))
              ∙ append_assoc (events s) (event_of m ∷ []) (map event_of ms),
          rest_all,
        )

    -- Chunks that the decoder drains do not break the connection off.
    reads-drained :
        (chunks : List Codes) (c : Connection random max_bytes) (t : Session)
        → on_chunks max_bytes (on_frame random max_bytes) chunks c ≡ drained [] t
        → run random max_bytes (map reads chunks) (broken_off random max_bytes c) ≡ drained [] t
    unfolding run on_chunks on_chunk step consume
    reads-drained [] (drained b s) t e = e
    reads-drained [] (thrown reason s) t e = cc
    reads-drained [] out_of_fuel t e = cc
    reads-drained (chunk ∷ chunks) (drained b s) t e =
        reads-drained chunks (on_chunk max_bytes (on_frame random max_bytes) chunk (drained b s)) t
          e
    reads-drained (chunk ∷ chunks) (thrown reason s) t e =
        reads-drained chunks (thrown reason s) t e
    reads-drained (chunk ∷ chunks) out_of_fuel t e = reads-drained chunks out_of_fuel t e

    -- For a `maxBytes` of at least 125 and below 2^64: whole messages, each of at most `maxBytes`
    -- bytes in any number of parts and with pings and pongs of at most 125 bytes between them, reach
    -- a session that is between two messages and in which no call waits where an event is there. In
    -- whatever chunks their bytes arrive, every message becomes one event, text or binary as it was
    -- sent, behind the events that there were and in the order of sending; the connection is not
    -- broken off, keeps no byte, and is between two messages again.
    pub run-reads-frames :
        (chunks : List Codes) (ms : List Message) (s : Session)
        → IsIdle random max_bytes s
        → All (IsDeliverable max_bytes) ms
        → concat chunks ≡ stream ms
        → Reaches random max_bytes
            (run random max_bytes (map reads chunks) (drained [] s))
            (events s)
            (map event_of ms)
    run-reads-frames chunks ms s idle h e =
        let (t, drains, grows, rest) = all_frames-Reaches ms s idle h in
        (
          t,
          reads-drained chunks (drained [] s) t (
              on_chunks-encode_frame max_bytes (on_frame random max_bytes) chunks
                (map unmasked (all_frames ms)) s
                (unmasked-SendsAll (all_frames ms) (all_frames-SendsAll ms h)) e
              ∙ ap (λ fs. followed fs s)
                  (frame_of-unmasked (all_frames ms) (all_frames-SendsAll ms h))
              ∙ drains),
          grows,
          rest,
        )
