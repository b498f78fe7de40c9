-- ===== src/WebSocket/Session/Runs.antt =====
-- scripts/verify-websocket.mjs, `openWebSocket`: everything that can happen to a connection.
use codex_official_bridge.Prelude.{
  ℕ, ◌+◌, ◌≤◌, ◌<◌, ◌≡◌, refl, ap, sym, ◌∙◌, String, inl, Option, none, some, List, [], ◌∷◌,
  append-nil, length, if_both, arith,
}
use codex_official_bridge.Codes.{Codes}
use codex_official_bridge.WebSocket.Frame.{drained, thrown, out_of_fuel}
use codex_official_bridge.WebSocket.Frame.Chunks.{concat}
use codex_official_bridge.WebSocket.Frame.Bounds.{IsKept, on_chunk-IsKept}
use codex_official_bridge.WebSocket.Session.{
  Event, destroyed, Session, new, contains, stop, wait_or, first_event, receive, on_timeout,
  on_frame, Connection, on_session, broken_off, consume, Step, reads, fails, ends, receives,
  times_out, sends, closes, terminates, step, run,
}
use codex_official_bridge.WebSocket.Session.Log.{events}
use codex_official_bridge.WebSocket.Session.Orderly.{
  IsOrderly, quiet, receive-IsOrderly, on_timeout-IsOrderly,
}
use codex_official_bridge.WebSocket.Session.Stopped.{stop-IsOrderly, stop-ends}
use codex_official_bridge.WebSocket.Session.Frames.{
  IsChange, write-IsChange, close-IsChange, emit-IsChange, IsCounted, IsGoing, on_frame-Fine,
}

wait_or-same :
    (o : Option String) (s : Session)
    → (((wait_or o s).fragment_bytes ≡ s.fragment_bytes) × ((wait_or o s).fragments ≡ s.fragments))
      × ((wait_or o s).ended ≡ s.ended)
wait_or-same (some reason) s = ((refl, refl), refl)
wait_or-same none s = ((refl, refl), refl)

first_event-same :
    (q : List Event) (s : Session)
    → (((first_event q s).fragment_bytes ≡ s.fragment_bytes)
        × ((first_event q s).fragments ≡ s.fragments))
      × ((first_event q s).ended ≡ s.ended)
first_event-same [] s = wait_or-same s.ended s
first_event-same (e ∷ rest) s = ((refl, refl), refl)

still-IsCounted :
    (s t : Session)
    → (t.fragment_bytes ≡ s.fragment_bytes) × (t.fragments ≡ s.fragments)
    → IsCounted s
    → IsCounted t
still-IsCounted s t (bytes, parts) c =
    bytes ∙ c ∙ ap (λ fragments. length (concat fragments)) (sym parts)

module _ (start : List Event) where
  receive-IsChange : (s : Session) → IsChange start s (receive s)
  unfolding receive
  receive-IsChange s = record {
    orderly = receive-IsOrderly start s;
    same_bytes = (first_event-same s.queue s).0;
    same_ended = (first_event-same s.queue s).1;
  }

  on_timeout-IsChange : (id : ℕ) (s : Session) → IsChange start s (on_timeout id s)
  unfolding on_timeout
  on_timeout-IsChange id s = record {
    orderly = on_timeout-IsOrderly start id s;
    same_bytes =
        if_both (λ t. (t.fragment_bytes ≡ s.fragment_bytes) × (t.fragments ≡ s.fragments))
          (contains id s.timers) _ s (refl, refl) (refl, refl);
    same_ended = if_both (λ t. t.ended ≡ s.ended) (contains id s.timers) _ s refl refl;
  }

  module _ (random : ℕ → Codes) (max_bytes : ℕ) where
    -- A connection that goes on, with few bytes that wait for more, or that has ended with a throw.
    abbrev pub IsSafe : Connection random max_bytes → Type 0
    IsSafe (drained buffered s) =
        (length buffered < max_bytes + 14)
        × IsOrderly start s
        × IsCounted s
        × (s.fragment_bytes ≤ max_bytes)
    IsSafe (thrown reason s) = IsOrderly start s × ((e : String) × (s.ended ≡ some e))
    IsSafe out_of_fuel = ⊥

    broken_off-IsSafe :
        (c : Connection random max_bytes)
        → IsKept max_bytes
            (on_frame random max_bytes)
            (IsGoing start random max_bytes)
            (IsOrderly start)
            c
        → IsSafe (broken_off random max_bytes c)
    broken_off-IsSafe (drained buffered s) (h, k) = (h, k.0, k.1, k.2)
    broken_off-IsSafe (thrown reason s) h = (
      quiet start destroyed (stop reason s) (λ i. refl) refl (stop-IsOrderly start reason s h),
      (stop-ends reason s h.timed).0,
    )
    broken_off-IsSafe out_of_fuel h = h

    consume-IsSafe :
        (chunk : Codes) (c : Connection random max_bytes)
        → IsSafe c
        → IsSafe (consume random max_bytes chunk c)
    unfolding consume
    consume-IsSafe chunk (drained buffered s) (h, o, c, k) = broken_off-IsSafe _ (
        on_chunk-IsKept max_bytes (on_frame random max_bytes) (IsGoing start random max_bytes)
          (IsOrderly start) (λ s h. h.0) (λ f s _ h. on_frame-Fine start random max_bytes f s h)
          chunk (drained buffered s) (h, (o, c, k)))
    consume-IsSafe chunk (thrown reason s) h = h
    consume-IsSafe chunk out_of_fuel h = h

    changed :
        (f : Session → Session) (c : Connection random max_bytes)
        → ((s : Session) → IsChange start s (f s))
        → IsSafe c
        → IsSafe (on_session random max_bytes f c)
    changed f (drained buffered s) change (h, o, c, k) =
        let d = change s in
        (h, d.orderly o, still-IsCounted s (f s) d.same_bytes c, omega (arith, k, d.same_bytes.0))
    changed f (thrown reason s) change (o, (e, ended)) =
        let d = change s in (d.orderly o, (e, d.same_ended ∙ ended))
    changed f out_of_fuel change h = h

    stopped :
        (reason : String) (c : Connection random max_bytes)
        → IsSafe c
        → IsSafe (on_session random max_bytes (stop reason) c)
    stopped reason (drained buffered s) (h, o, c, k) =
        let same = (stop-ends reason s o.timed).1 in
        (
          h,
          stop-IsOrderly start reason s o,
          still-IsCounted s (stop reason s) same c,
          omega (arith, k, same.0),
        )
    stopped reason (thrown why s) (o, (e, ended)) =
        (stop-IsOrderly start reason s o, (stop-ends reason s o.timed).0)
    stopped reason out_of_fuel h = h

    step-IsSafe :
        (e : Step random max_bytes) (c : Connection random max_bytes)
        → IsSafe c
        → IsSafe (step random max_bytes e c)
    unfolding step
    step-IsSafe (reads chunk) c h = consume-IsSafe chunk c h
    step-IsSafe fails c h = stopped _ c h
    step-IsSafe ends c h = stopped _ c h
    step-IsSafe receives c h = changed receive c receive-IsChange h
    step-IsSafe (times_out id) c h = changed (on_timeout id) c (on_timeout-IsChange id) h
    step-IsSafe (sends payload opcode masked fin) c h =
        changed _ c (write-IsChange start random payload opcode masked fin) h
    step-IsSafe (closes code) c h = changed _ c (close-IsChange start random code) h
    step-IsSafe terminates c h =
        changed _ c (λ s. emit-IsChange start destroyed s (λ i. refl) refl) h

    run-IsSafe :
        (es : List (Step random max_bytes)) (c : Connection random max_bytes)
        → IsSafe c
        → IsSafe (run random max_bytes es c)
    unfolding run
    run-IsSafe [] c h = h
    run-IsSafe (e ∷ es) c h = run-IsSafe es _ (step-IsSafe e c h)

-- From here on.
regrow : (start : List Event) (s : Session) → IsOrderly start s → IsOrderly (events s) s
regrow start s h = record {
  once = h.once;
  timed = h.timed;
  apart = h.apart;
  over = h.over;
  grown = ([], sym (append-nil (events s)));
}

module _ (random : ℕ → Codes) (max_bytes : ℕ) where
  abbrev pub events_of : Connection random max_bytes → List Event
  events_of (drained buffered s) = events s
  events_of (thrown reason s) = events s
  events_of out_of_fuel = []

  regrow-IsSafe :
      (start : List Event) (c : Connection random max_bytes)
      → IsSafe start random max_bytes c
      → IsSafe (events_of c) random max_bytes c
  regrow-IsSafe start (drained buffered s) (h, o, c, k) = (h, regrow start s o, c, k)
  regrow-IsSafe start (thrown reason s) (o, e) = (regrow start s o, e)
  regrow-IsSafe start out_of_fuel h = h

  new-IsSafe : IsSafe [] random max_bytes (drained [] new)
  unfolding new
  new-IsSafe = (
    omega arith,
    record {
      once = λ i. ground arith;
      timed = refl;
      apart = inl refl;
      over = inl refl;
      grown = ([], refl);
    },
    refl,
    omega arith,
  )

  -- After any steps of a new connection, and any further steps: every call of `receive` either
  -- waits once, with its timer set, or has ended once; a call does not wait where an event or the
  -- end of the socket is there for it; the events that calls were given, followed by those that
  -- wait, begin with what they were before the further steps; the decoder's loop has ended; and
  -- either the parts of a message that are kept have at most `maxBytes` bytes, as many
  -- as are counted, and fewer than `maxBytes + 14` bytes of a frame are kept, or the session has
  -- ended.
  pub run-new-IsSafe :
      (es fs : List (Step random max_bytes))
      → let c = run random max_bytes es (drained [] new) in
        IsSafe (events_of c) random max_bytes (run random max_bytes fs c)
  run-new-IsSafe es fs =
      let c = run random max_bytes es (drained [] new) in
      run-IsSafe (events_of c) random max_bytes fs c
        (regrow-IsSafe [] c (run-IsSafe [] random max_bytes es (drained [] new) new-IsSafe))
