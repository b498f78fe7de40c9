-- ===== src/WebSocket/Session/Messages.antt =====
-- scripts/verify-websocket.mjs: messages that arrive in parts, with pings and pongs between them.
use codex_official_bridge.Prelude.{
  ℕ, ◌+◌, ◌≤◌, ◌≡◌, refl, ap, ap₂, sym, ◌∙◌, String, Bool, true, false, ◌⊎◌, inl, inr, Option, none,
  some, List, [], ◌∷◌, ◌++◌, append-nil, append_assoc, length, length-append, ltb, nat_eq,
  if◌then◌else◌, if_false, arith,
}
use codex_official_bridge.Codes.{Codes}
use codex_official_bridge.WebSocket.Frame.{Frame, Decoder, drained, handled}
use codex_official_bridge.WebSocket.Frame.Chunks.{concat}
use codex_official_bridge.WebSocket.Frame.RoundTrip.{follow}
use codex_official_bridge.WebSocket.Session.{
  Event, Session, hand_over, push, write, message_event, begin_message, add_fragment,
  finish_message, add_data, on_frame,
}
use codex_official_bridge.WebSocket.Session.Log.{events, handed-quiet}
use codex_official_bridge.WebSocket.Session.Orderly.{waiting, events-hand_over}

-- What comes before the last part of a message.
pub data Part : Type 0 where
  piece : (payload : Codes) → Part
  ping : (payload : Codes) → Part
  pong : (payload : Codes) → Part

abbrev pub plain : (opcode : ℕ) → (fin : Bool) → Codes → Frame
plain opcode fin payload = record { opcode = opcode; fin = fin; masked = false; payload = payload }

-- The frames of a message: its operation stands in the first of its parts.
abbrev pub frames : (opcode : ℕ) → List Part → (last : Codes) → List Frame
frames opcode [] last = plain opcode true last ∷ []
frames opcode (piece p ∷ parts) last = plain opcode false p ∷ frames 0 parts last
frames opcode (ping p ∷ parts) last = plain 9 true p ∷ frames opcode parts last
frames opcode (pong p ∷ parts) last = plain 10 true p ∷ frames opcode parts last

abbrev pub whole : List Part → (last : Codes) → Codes
whole [] last = last
whole (piece p ∷ parts) last = p ++ whole parts last
whole (ping p ∷ parts) last = whole parts last
whole (pong p ∷ parts) last = whole parts last

-- A session in a message of an operation, where the next part has a given one, and what has come.
pub record IsWithin (next opcode : ℕ) (came : Codes) (s : Session) : Type 0 where
  pub position :
      (((next ≡ 1) ⊎ (next ≡ 2)) × (opcode ≡ next) × (s.fragment_opcode ≡ none))
      ⊎ ((next ≡ 0) × (s.fragment_opcode ≡ some opcode))
  pub pieces : concat s.fragments ≡ came
  pub counted : s.fragment_bytes ≡ length came
  pub apart : (s.queue ≡ []) ⊎ (s.waiters ≡ [])

concat-append : (xs : List Codes) (p : Codes) → concat (xs ++ p ∷ []) ≡ concat xs ++ p
concat-append [] p = append-nil p
concat-append (x ∷ xs) p =
    ap (λ rest. x ++ rest) (concat-append xs p) ∙ sym (append_assoc x (concat xs) p)

module _ (random : ℕ → Codes) (max_bytes : ℕ) where
  on_frame-add_data :
      (next opcode : ℕ) (came p : Codes) (fin : Bool) (s : Session)
      → IsWithin next opcode came s
      → on_frame random max_bytes (plain next fin p) s
        ≡ add_data random max_bytes (plain next fin p) s
  unfolding on_frame
  on_frame-add_data next opcode came p fin s h = ground (arith, h.position)

  begin_message-known :
      (next opcode : ℕ) (came : Codes) (s : Session)
      → IsWithin next opcode came s
      → begin_message next s ≡ record s { fragment_opcode = some opcode }
  begin_message-known next opcode came s h = elim h.position [
    | inl (which, same, closed) ↦
        if_false (nat_eq next 0) _ _ (ground (arith, which))
        ∙ ap (λ k. record s { fragment_opcode = some k }) (sym same)
    | inr (zero_next, opened) ↦
        ap (λ k. begin_message k s) zero_next ∙ ap (λ o. record s { fragment_opcode = o }) opened
  ]

  -- The session with one more part.
  abbrev with_part : (opcode : ℕ) → (p : Codes) → Session → Session
  with_part opcode p s = add_fragment p (record s { fragment_opcode = some opcode })

  on_frame-part :
      (next opcode : ℕ) (came p : Codes) (fin : Bool) (s : Session)
      → IsWithin next opcode came s
      → length (came ++ p) ≤ max_bytes
      → on_frame random max_bytes (plain next fin p) s
        ≡ (none, finish_message fin (with_part opcode p s))
  on_frame-part next opcode came p fin s h small =
      on_frame-add_data next opcode came p fin s h
      ∙ ap
          (λ t.
            let u = add_fragment p t in
            (if ltb max_bytes u.fragment_bytes
              then (some "websocket_message_too_large", u)
              else (none, finish_message fin u)))
          (begin_message-known next opcode came s h)
      ∙ if_false (ltb max_bytes (s.fragment_bytes + length p)) _ _
          (ground (arith, small, h.counted, length-append came p))

  with_part-IsWithin :
      (next opcode : ℕ) (came p : Codes) (s : Session)
      → IsWithin next opcode came s
      → IsWithin 0 opcode (came ++ p) (with_part opcode p s)
  with_part-IsWithin next opcode came p s h = record {
    position = inr (refl, refl);
    pieces = concat-append s.fragments p ∙ ap (λ c. c ++ p) h.pieces;
    counted = omega (arith, h.counted, length-append came p);
    apart = h.apart;
  }

  -- Between two messages.
  abbrev pub IsIdle : Session → Type 0
  IsIdle s =
      (s.fragment_opcode ≡ none)
      × (s.fragments ≡ [])
      × (s.fragment_bytes ≡ 0)
      × ((s.queue ≡ []) ⊎ (s.waiters ≡ []))

  hand_over-apart :
      (e : Event) (ws : List ℕ) (s : Session)
      → s.waiters ≡ ws
      → (s.queue ≡ []) ⊎ (s.waiters ≡ [])
      → ((hand_over e ws s).queue ≡ []) ⊎ ((hand_over e ws s).waiters ≡ [])
  hand_over-apart e [] s w apart = inr w
  hand_over-apart e (first ∷ rest) s w apart = inl (waiting s.waiters first rest apart w)

  finish-IsIdle : (s : Session) → (s.queue ≡ []) ⊎ (s.waiters ≡ []) → IsIdle (finish_message true s)
  unfolding push
  finish-IsIdle s apart = (refl, refl, refl, hand_over-apart _ s.waiters s refl apart)

  finish-events :
      (opcode : ℕ) (came : Codes) (s : Session)
      → s.fragment_opcode ≡ some opcode
      → IsWithin 0 opcode came s
      → events (finish_message true s) ≡ events s ++ message_event (some opcode) came ∷ []
  unfolding push
  finish-events opcode came s opened h =
      events-hand_over (message_event s.fragment_opcode (concat s.fragments)) s.waiters s refl
        h.apart
      ∙ ap₂ (λ o c. events s ++ message_event o c ∷ []) opened h.pieces

  write-quiet :
      (next opcode : ℕ) (came p : Codes) (s : Session)
      → IsWithin next opcode came s
      → IsWithin next opcode came (write random p 10 true true s)
        × (events (write random p 10 true true s) ≡ events s)
  unfolding write
  write-quiet next opcode came p s h = (
    record { position = h.position; pieces = h.pieces; counted = h.counted; apart = h.apart },
    ap (λ xs. xs ++ s.queue) (handed-quiet s.log _ refl),
  )

  -- The state that a decoder has drained to.
  abbrev pub Reaches :
      Decoder max_bytes (on_frame random max_bytes) → (start more : List Event) → Type 0
  Reaches d start more = (t : Session) × (d ≡ drained [] t) × (events t ≡ start ++ more) × IsIdle t

  next_frame :
      (out : Option String × Session) (t : Session)
      → out ≡ (none, t)
      → (next : Session → Decoder max_bytes (on_frame random max_bytes))
      → handled max_bytes (on_frame random max_bytes) out next ≡ next t
  next_frame out t e next = ap (λ o. handled max_bytes (on_frame random max_bytes) o next) e

  pub follow-frames :
      (parts : List Part) (last : Codes) (next opcode : ℕ) (came : Codes) (s : Session)
      → IsWithin next opcode came s
      → length (came ++ whole parts last) ≤ max_bytes
      → Reaches
          (follow max_bytes (on_frame random max_bytes) (frames next parts last) s)
          (events s)
          (message_event (some opcode) (came ++ whole parts last) ∷ [])
  unfolding on_frame
  follow-frames [] last next opcode came s h small =
      let t = with_part opcode last s in
      (
        finish_message true t,
        next_frame _ _ (on_frame-part next opcode came last true s h small) (drained []),
        finish-events opcode (came ++ last) t refl (with_part-IsWithin next opcode came last s h),
        finish-IsIdle t h.apart,
      )
  follow-frames (piece p ∷ parts) last next opcode came s h small =
      let t = with_part opcode p s in
      let assoc = append_assoc came p (whole parts last) in
      let (u, drains, grows, idle) =
        follow-frames parts last 0 opcode (came ++ p) t (with_part-IsWithin next opcode came p s h)
          (omega (arith, small, ap length assoc)) in
      (
        u,
        next_frame _ _
              (on_frame-part next opcode came p false s h (
                omega
                  (arith, small, ap length assoc, length-append (came ++ p) (whole parts last))))
              (follow max_bytes (on_frame random max_bytes) (frames 0 parts last))
            ∙ drains,
        grows ∙ ap (λ c. events s ++ message_event (some opcode) c ∷ []) assoc,
        idle,
      )
  follow-frames (ping p ∷ parts) last next opcode came s h small =
      let (k, same) = write-quiet next opcode came p s h in
      let (u, drains, grows, idle) =
        follow-frames parts last next opcode came (write random p 10 true true s) k small in
      (
        u,
        drains,
        grows ∙ ap (λ xs. xs ++ message_event (some opcode) (came ++ whole parts last) ∷ []) same,
        idle,
      )
  follow-frames (pong p ∷ parts) last next opcode came s h small =
      follow-frames parts last next opcode came s h small
