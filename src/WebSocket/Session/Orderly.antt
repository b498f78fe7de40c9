-- ===== src/WebSocket/Session/Orderly.antt =====
-- scripts/verify-websocket.mjs, `openWebSocket`: the promises of `receive` and the order of events.
use codex_official_bridge.Prelude.{
  ℕ, ◌+◌, ◌≡◌, refl, ap, ap₂, sym, ◌∙◌, String, Bool, ◌⊎◌, inl, inr, Option, none, some, List, [],
  ◌∷◌, ◌++◌, append-nil, append_assoc, ltb, if_cases, arith,
}
use codex_official_bridge.Codes.{Codes}
use codex_official_bridge.WebSocket.Session.{
  Event, Output, resolved, rejected, Session, emit, remove, contains, hand_over, push, wait_or,
  first_event, receive, on_timeout,
}
use codex_official_bridge.WebSocket.Session.Log.{
  once_if, count, ended_by, count_ended, handed_by, handed, events, count-append,
  count_ended-append, handed-append, handed-quiet, remove-head, count-remove, remove-nil,
}

-- Every call of `receive` up to now waits once or has ended once; a timer is set for those that
-- wait; events and calls do not both wait; behind the end no call waits; and the events are those
-- of a start with others behind them.
pub record IsOrderly (start : List Event) (s : Session) : Type 0 where
  pub once : (i : ℕ) → count i s.waiters + count_ended i s.log ≡ once_if (ltb i s.next_id)
  pub timed : s.timers ≡ s.waiters
  pub apart : (s.queue ≡ []) ⊎ (s.waiters ≡ [])
  pub over : (s.ended ≡ none) ⊎ (s.waiters ≡ [])
  pub grown : (more : List Event) × (events s ≡ start ++ more)

-- Where a call waits.
pub waiting {ℓ} :
    {A : Type ℓ} (ws : List ℕ) (w : ℕ) (rest : List ℕ) → A ⊎ (ws ≡ []) → ws ≡ w ∷ rest → A
waiting ws w rest (inl a) e = a
waiting ws w rest (inr n) e = absurd (cc)

-- An event goes behind those that there are, to a call or to the queue.
pub events-hand_over :
    (e : Event) (ws : List ℕ) (s : Session)
    → s.waiters ≡ ws
    → (s.queue ≡ []) ⊎ (s.waiters ≡ [])
    → events (hand_over e ws s) ≡ events s ++ e ∷ []
events-hand_over e [] s w apart = sym (append_assoc (handed s.log) s.queue (e ∷ []))
events-hand_over e (first ∷ rest) s w apart =
    ap₂ (λ xs q. xs ++ q) (handed-append s.log (resolved first e)) none_queued
    ∙ append-nil (handed s.log ++ e ∷ [])
    ∙ sym (
        ap (λ xs. xs ++ e ∷ [])
          (ap (λ q. handed s.log ++ q) none_queued ∙ append-nil (handed s.log)))
  where
    none_queued : s.queue ≡ []
    none_queued = waiting s.waiters first rest apart w

module _ (start : List Event) where
  -- An output that ends no promise.
  pub quiet :
      (o : Output) (s : Session)
      → ((i : ℕ) → ended_by i o ≡ 0)
      → handed_by o ≡ []
      → IsOrderly start s
      → IsOrderly start (emit o s)
  quiet o s none_ended none_handed h = record {
    once = λ i. omega (arith, h.once i, count_ended-append i s.log o, none_ended i);
    timed = h.timed;
    apart = h.apart;
    over = h.over;
    grown =
        let (more, e) = h.grown in
        (more, ap (λ xs. xs ++ s.queue) (handed-quiet s.log o none_handed) ∙ e);
  }

  hand_over-grown :
      (e : Event) (ws : List ℕ) (s : Session)
      → s.waiters ≡ ws
      → IsOrderly start s
      → (m : List Event) × (events (hand_over e ws s) ≡ start ++ m)
  hand_over-grown e ws s w h =
      let (more, g) = h.grown in
      (
        more ++ e ∷ [],
        events-hand_over e ws s w h.apart
            ∙ ap (λ xs. xs ++ e ∷ []) g
            ∙ append_assoc start more (e ∷ []),
      )

  pub hand_over-IsOrderly :
      (e : Event) (ws : List ℕ) (s : Session)
      → s.waiters ≡ ws
      → IsOrderly start s
      → IsOrderly start (hand_over e ws s)
  hand_over-IsOrderly e [] s w h = record {
    once = h.once;
    timed = h.timed;
    apart = inr w;
    over = h.over;
    grown = hand_over-grown e [] s w h;
  }
  hand_over-IsOrderly e (first ∷ rest) s w h = record {
    once =
        λ i. omega (arith, h.once i, ap (count i) w, count_ended-append i s.log (resolved first e));
    timed = ap (remove first) (h.timed ∙ w) ∙ remove-head first rest;
    apart = inl (waiting s.waiters first rest h.apart w);
    over = inl (waiting s.waiters first rest h.over w);
    grown = hand_over-grown e (first ∷ rest) s w h;
  }

  -- The fields of the frames have no part in it.
  pub fields-IsOrderly :
      (opcode : Option ℕ) (fragments : List Codes) (bytes masks : ℕ) (sent : Bool) (s : Session)
      → IsOrderly start s
      → IsOrderly start (record s {
        fragment_opcode = opcode;
        fragments = fragments;
        fragment_bytes = bytes;
        masks = masks;
        sent_close = sent;
      })
  fields-IsOrderly opcode fragments bytes masks sent s h = record {
    once = h.once;
    timed = h.timed;
    apart = h.apart;
    over = h.over;
    grown = h.grown;
  }

  pub push-IsOrderly : (e : Event) (s : Session) → IsOrderly start s → IsOrderly start (push e s)
  unfolding push
  push-IsOrderly e s h = hand_over-IsOrderly e s.waiters s refl h

  wait_or-IsOrderly :
      (o : Option String) (s : Session)
      → s.ended ≡ o
      → s.queue ≡ []
      → IsOrderly start s
      → IsOrderly start (wait_or o s)
  wait_or-IsOrderly (some reason) s ended same h = record {
    once = λ i. ground (arith, h.once i, count_ended-append i s.log (rejected s.next_id reason));
    timed = h.timed;
    apart = h.apart;
    over = h.over;
    grown =
        let (more, g) = h.grown in
        (more, ap (λ xs. xs ++ s.queue) (handed-quiet s.log (rejected s.next_id reason) refl) ∙ g);
  }
  wait_or-IsOrderly none s ended same h = record {
    once = λ i. ground (arith, h.once i, count-append i s.waiters s.next_id);
    timed = ap (λ ws. ws ++ s.next_id ∷ []) h.timed;
    apart = inl same;
    over = inl ended;
    grown = h.grown;
  }

  first_event-IsOrderly :
      (q : List Event) (s : Session)
      → s.queue ≡ q
      → IsOrderly start s
      → IsOrderly start (first_event q s)
  first_event-IsOrderly (e ∷ rest) s same h = record {
    once = λ i. ground (arith, h.once i, count_ended-append i s.log (resolved s.next_id e));
    timed = h.timed;
    apart = inr idle;
    over = h.over;
    grown =
        let (more, g) = h.grown in
        (
          more,
          ap (λ xs. xs ++ rest) (handed-append s.log (resolved s.next_id e))
              ∙ append_assoc (handed s.log) (e ∷ []) rest
              ∙ sym (ap (λ q. handed s.log ++ q) same)
              ∙ g,
        );
  }
    where
      idle : s.waiters ≡ []
      idle = elim h.apart [ inl n ↦ cc | inr n ↦ n ]
  first_event-IsOrderly [] s same h = wait_or-IsOrderly s.ended s refl same h

  pub receive-IsOrderly : (s : Session) → IsOrderly start s → IsOrderly start (receive s)
  unfolding receive
  receive-IsOrderly s h = first_event-IsOrderly s.queue s refl h

  pub on_timeout-IsOrderly :
      (id : ℕ) (s : Session) → IsOrderly start s → IsOrderly start (on_timeout id s)
  unfolding on_timeout
  on_timeout-IsOrderly id s h =
      if_cases (IsOrderly start) (contains id s.timers) _ s
        (λ set. record {
          once = λ i. omega (
            arith,
            h.once i,
            count-remove i id s.waiters (ap (contains id) (sym h.timed) ∙ set),
            count_ended-append i s.log (rejected id "websocket_receive_timeout"),
          );
          timed = ap (remove id) h.timed;
          apart = elim h.apart [ inl n ↦ inl n | inr n ↦ inr (remove-nil id s.waiters n) ];
          over = elim h.over [ inl n ↦ inl n | inr n ↦ inr (remove-nil id s.waiters n) ];
          grown =
              let (more, g) = h.grown in
              (
                more,
                ap (λ xs. xs ++ s.queue)
                      (handed-quiet s.log (rejected id "websocket_receive_timeout") refl)
                    ∙ g,
              );
        })
        (λ _. h)
