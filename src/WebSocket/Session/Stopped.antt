-- ===== src/WebSocket/Session/Stopped.antt =====
-- scripts/verify-websocket.mjs, `openWebSocket`: `stop`, which rejects the waiting calls.
use codex_official_bridge.Prelude.{
  ℕ, ◌+◌, ◌≡◌, refl, ap, ap₂, sym, ◌∙◌, String, inr, Option, none, some, List, [], ◌∷◌, ◌++◌, ltb,
  arith,
}
use codex_official_bridge.WebSocket.Session.{
  Event, rejected, Session, emit, remove, reject_waiters, stop_open, stop,
}
use codex_official_bridge.WebSocket.Session.Orderly.{IsOrderly}
use codex_official_bridge.WebSocket.Session.Log.{
  once_if, count, count_ended, handed, count_ended-append, handed-quiet, remove-head,
}

-- What the loop of `stop` does to the calls that it takes.
record Rejected (ws : List ℕ) (s t : Session) : Type 0 where
  logged : (i : ℕ) → count_ended i t.log ≡ count i ws + count_ended i s.log
  no_event : handed t.log ≡ handed s.log
  cleared : t.timers ≡ []
  same_queue : t.queue ≡ s.queue
  same_waiters : t.waiters ≡ s.waiters
  same_next : t.next_id ≡ s.next_id
  same_ended : t.ended ≡ s.ended
  same_bytes : (t.fragment_bytes ≡ s.fragment_bytes) × (t.fragments ≡ s.fragments)

reject_waiters-Rejected :
    (reason : String) (ws : List ℕ) (s : Session)
    → s.timers ≡ ws
    → Rejected ws s (reject_waiters reason ws s)
unfolding reject_waiters
reject_waiters-Rejected reason [] s e = record {
  logged = λ i. omega arith;
  no_event = refl;
  cleared = e;
  same_queue = refl;
  same_waiters = refl;
  same_next = refl;
  same_ended = refl;
  same_bytes = (refl, refl);
}
reject_waiters-Rejected reason (w ∷ rest) s e =
    let h =
      reject_waiters-Rejected reason rest
        (emit (rejected w reason) (record s { timers = remove w s.timers }))
        (ap (remove w) e ∙ remove-head w rest) in
    record {
      logged = λ i. omega (arith, h.logged i, count_ended-append i s.log (rejected w reason));
      no_event = h.no_event ∙ handed-quiet s.log (rejected w reason) refl;
      cleared = h.cleared;
      same_queue = h.same_queue;
      same_waiters = h.same_waiters;
      same_next = h.same_next;
      same_ended = h.same_ended;
      same_bytes = h.same_bytes;
    }

module _ (start : List Event) where
  stop_open-IsOrderly :
      (reason : String) (o : Option String) (s : Session)
      → s.ended ≡ o
      → IsOrderly start s
      → IsOrderly start (stop_open reason o s)
  stop_open-IsOrderly reason (some e) s same h = h
  stop_open-IsOrderly reason none s same h =
      let r =
        reject_waiters-Rejected reason s.waiters (record s { ended = some reason; waiters = [] })
          h.timed in
      record {
        once = λ i. omega (
          arith,
          h.once i,
          r.logged i,
          ap (count i) r.same_waiters,
          ap (λ n. once_if (ltb i n)) r.same_next,
        );
        timed = r.cleared ∙ sym r.same_waiters;
        apart = inr r.same_waiters;
        over = inr r.same_waiters;
        grown =
            let (more, g) = h.grown in (more, ap₂ (λ xs q. xs ++ q) r.no_event r.same_queue ∙ g);
      }

  pub stop-IsOrderly :
      (reason : String) (s : Session) → IsOrderly start s → IsOrderly start (stop reason s)
  unfolding stop
  stop-IsOrderly reason s h = stop_open-IsOrderly reason s.ended s refl h

-- It ends the session, and leaves the fragments.
stop_open-ends :
    (reason : String) (o : Option String) (s : Session)
    → s.ended ≡ o
    → s.timers ≡ s.waiters
    → ((e : String) × ((stop_open reason o s).ended ≡ some e))
      × (((stop_open reason o s).fragment_bytes ≡ s.fragment_bytes)
          × ((stop_open reason o s).fragments ≡ s.fragments))
stop_open-ends reason (some e) s same timed = ((e, same), (refl, refl))
stop_open-ends reason none s same timed =
    let r =
      reject_waiters-Rejected reason s.waiters (record s { ended = some reason; waiters = [] })
        timed in
    ((reason, r.same_ended), r.same_bytes)

pub stop-ends :
    (reason : String) (s : Session)
    → s.timers ≡ s.waiters
    → ((e : String) × ((stop reason s).ended ≡ some e))
      × (((stop reason s).fragment_bytes ≡ s.fragment_bytes)
          × ((stop reason s).fragments ≡ s.fragments))
unfolding stop
stop-ends reason s timed = stop_open-ends reason s.ended s refl timed
