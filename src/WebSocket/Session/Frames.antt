-- ===== src/WebSocket/Session/Frames.antt =====
-- scripts/verify-websocket.mjs, `openWebSocket`: its `onFrame`, and what is written.
use codex_official_bridge.Prelude.{
  ℕ, suc, ◌+◌, ◌≤◌, ◌≡◌, refl, ap, sym, ◌∙◌, String, Bool, true, false, not, ◌&&◌, ◌||◌, Option,
  none, some, List, [], ◌∷◌, ◌++◌, length, length-append, ltb, nat_eq, if_both, if_cases, arith,
}
use codex_official_bridge.Codes.{Codes}
use codex_official_bridge.WebSocket.Frame.{Frame, u16}
use codex_official_bridge.WebSocket.Frame.Bounds.{Handles}
use codex_official_bridge.WebSocket.Session.{
  Event, close_event, Output, half_closed, Session, emit, hand_over, push, write, reply_close,
  close, close_code, is_data, is_open, begin_message, add_fragment, finish_message, message_event,
  add_data, on_data_frame, on_frame,
}
use codex_official_bridge.WebSocket.Frame.Chunks.{concat}
use codex_official_bridge.WebSocket.Session.Log.{ended_by, handed_by}
use codex_official_bridge.WebSocket.Session.Orderly.{
  IsOrderly, quiet, fields-IsOrderly, hand_over-IsOrderly, push-IsOrderly,
}

-- As many bytes of a message are kept as are counted.
abbrev pub IsCounted : Session → Type 0
IsCounted s = s.fragment_bytes ≡ length (concat s.fragments)

length-concat :
    (xs : List Codes) (p : Codes) → length (concat (xs ++ p ∷ [])) ≡ length (concat xs) + length p
length-concat [] p = omega (arith, length-append p [])
length-concat (x ∷ xs) p = omega (
  arith,
  length-append x (concat xs),
  length-append x (concat (xs ++ p ∷ [])),
  length-concat xs p,
)

module _ (start : List Event) where
  -- A change that keeps the order, the bytes of the fragments, and the end.
  pub record IsChange (s t : Session) : Type 0 where
    pub orderly : IsOrderly start s → IsOrderly start t
    pub same_bytes : (t.fragment_bytes ≡ s.fragment_bytes) × (t.fragments ≡ s.fragments)
    pub same_ended : t.ended ≡ s.ended

  pub none-IsChange : (s : Session) → IsChange s s
  none-IsChange s = record { orderly = λ h. h; same_bytes = (refl, refl); same_ended = refl }

  both-IsChange : (r s t : Session) → IsChange r s → IsChange s t → IsChange r t
  both-IsChange r s t h k = record {
    orderly = λ o. k.orderly (h.orderly o);
    same_bytes = (k.same_bytes.0 ∙ h.same_bytes.0, k.same_bytes.1 ∙ h.same_bytes.1);
    same_ended = k.same_ended ∙ h.same_ended;
  }

  hand_over-IsChange :
      (e : Event) (ws : List ℕ) (s : Session) → s.waiters ≡ ws → IsChange s (hand_over e ws s)
  hand_over-IsChange e [] s w = record {
    orderly = hand_over-IsOrderly start e [] s w;
    same_bytes = (refl, refl);
    same_ended = refl;
  }
  hand_over-IsChange e (first ∷ rest) s w = record {
    orderly = hand_over-IsOrderly start e (first ∷ rest) s w;
    same_bytes = (refl, refl);
    same_ended = refl;
  }

  push-IsChange : (e : Event) (s : Session) → IsChange s (push e s)
  unfolding push
  push-IsChange e s = hand_over-IsChange e s.waiters s refl

  sent-IsChange : (s : Session) → IsChange s (record s { sent_close = true })
  sent-IsChange s = record {
    orderly = fields-IsOrderly start s.fragment_opcode s.fragments s.fragment_bytes s.masks true s;
    same_bytes = (refl, refl);
    same_ended = refl;
  }

  pub emit-IsChange :
      (o : Output) (s : Session)
      → ((i : ℕ) → ended_by i o ≡ 0)
      → handed_by o ≡ []
      → IsChange s (emit o s)
  emit-IsChange o s e h = record {
    orderly = quiet start o s e h;
    same_bytes = (refl, refl);
    same_ended = refl;
  }

  module _ (random : ℕ → Codes) where
    pub write-IsChange :
        (payload : Codes) (opcode : ℕ) (masked fin : Bool) (s : Session)
        → IsChange s (write random payload opcode masked fin s)
    unfolding write
    write-IsChange payload opcode true fin s =
        both-IsChange s (record s { masks = suc s.masks }) _
          (record {
            orderly =
                fields-IsOrderly start s.fragment_opcode s.fragments s.fragment_bytes (suc s.masks)
                  s.sent_close s;
            same_bytes = (refl, refl);
            same_ended = refl;
          })
          (emit-IsChange _ _ (λ i. refl) refl)
    write-IsChange payload opcode false fin s = emit-IsChange _ s (λ i. refl) refl

    reply_close-IsChange :
        (payload : Codes) (s : Session) → IsChange s (reply_close random payload s)
    unfolding reply_close
    reply_close-IsChange payload s = if_both (IsChange s) s.sent_close s _ (none-IsChange s) (
        both-IsChange s (record s { sent_close = true }) _ (sent-IsChange s)
          (write-IsChange payload 8 true true (record s { sent_close = true })))

    pub close-IsChange : (code : ℕ) (s : Session) → IsChange s (close random code s)
    unfolding close
    close-IsChange code s =
        if_both (IsChange s) (s.sent_close || ltb 65535 code) s _ (none-IsChange s) (
          both-IsChange s (record s { sent_close = true }) _ (sent-IsChange s)
            (write-IsChange (u16 code) 8 true true (record s { sent_close = true })))

    module _ (max_bytes : ℕ) where
      -- Where the connection goes on: with a message within the bound.
      abbrev pub IsGoing : Session → Type 0
      IsGoing s = IsOrderly start s × IsCounted s × (s.fragment_bytes ≤ max_bytes)

      abbrev Fine : Option String × Session → Type 0
      Fine = Handles max_bytes (on_frame random max_bytes) IsGoing (IsOrderly start)

      going : (s t : Session) → IsChange s t → IsGoing s → IsGoing t
      going s t h (o, c, k) = (
        h.orderly o,
        h.same_bytes.0 ∙ c ∙ ap (λ parts. length (concat parts)) (sym h.same_bytes.1),
        omega (arith, k, h.same_bytes.0),
      )

      finish_message-IsGoing :
          (fin : Bool) (s : Session) → IsGoing s → IsGoing (finish_message fin s)
      finish_message-IsGoing true s (o, c, k) =
          let p = push (message_event s.fragment_opcode (concat s.fragments)) s in
          (
            fields-IsOrderly start none [] 0 p.masks p.sent_close p (push-IsOrderly start _ s o),
            refl,
            omega arith,
          )
      finish_message-IsGoing false s h = h

      add_data-Fine : (f : Frame) (s : Session) → IsGoing s → Fine (add_data random max_bytes f s)
      add_data-Fine f s h =
          if_cases Fine (ltb max_bytes parts.fragment_bytes) _ _ (λ _. parts-IsOrderly)
            (λ e.
              finish_message-IsGoing f.fin parts
                (parts-IsOrderly, parts-IsCounted, ground (arith, e)))
        where
          begun : Session
          begun = begin_message f.opcode s

          parts : Session
          parts = add_fragment f.payload begun

          begun-IsOrderly : IsOrderly start begun
          begun-IsOrderly = if_both (IsOrderly start) (nat_eq f.opcode 0) s _ (h.0) (
              fields-IsOrderly start (some f.opcode) s.fragments s.fragment_bytes s.masks
                s.sent_close s (h.0))

          begun-IsCounted : IsCounted begun
          begun-IsCounted = if_both IsCounted (nat_eq f.opcode 0) s _ (h.1) (h.1)

          parts-IsCounted : IsCounted parts
          parts-IsCounted = omega (arith, begun-IsCounted, length-concat begun.fragments f.payload)

          parts-IsOrderly : IsOrderly start parts
          parts-IsOrderly =
              fields-IsOrderly start begun.fragment_opcode (begun.fragments ++ f.payload ∷ [])
                (begun.fragment_bytes + length f.payload) begun.masks begun.sent_close begun
                begun-IsOrderly

      on_data_frame-Fine :
          (f : Frame) (s : Session) → IsGoing s → Fine (on_data_frame random max_bytes f s)
      on_data_frame-Fine f s h = if_both Fine (not (is_data f.opcode)) _ _ (h.0) (
          if_both Fine (nat_eq f.opcode 0 && not (is_open s.fragment_opcode)) _ _ (h.0) (
            if_both Fine (not (nat_eq f.opcode 0) && is_open s.fragment_opcode) _ _ (h.0)
              (add_data-Fine f s h)))

      closed-IsChange :
          (payload : Codes) (s : Session)
          → IsChange s (
              emit half_closed
                (reply_close random payload (push (close_event (close_code payload)) s)))
      closed-IsChange payload s =
          both-IsChange s _ _ (push-IsChange (close_event (close_code payload)) s) (
            both-IsChange _ _ _ (reply_close-IsChange payload _)
              (emit-IsChange half_closed _ (λ i. refl) refl))

      pub on_frame-Fine :
          (f : Frame) (s : Session) → IsGoing s → Fine (on_frame random max_bytes f s)
      unfolding on_frame
      on_frame-Fine f s h = if_both Fine f.masked _ _ (h.0) (
          if_both Fine (nat_eq f.opcode 9) _ _
            (going s _ (write-IsChange f.payload 10 true true s) h)
            (if_both Fine (nat_eq f.opcode 10) _ _ h (
              if_both Fine (nat_eq f.opcode 8) _ _ (going s _ (closed-IsChange f.payload s) h)
                (on_data_frame-Fine f s h))))
