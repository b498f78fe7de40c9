-- ===== src/Rpc/ExactlyOnce.antt =====
-- The promise of every request ends exactly once, over everything that can happen to a client.
use codex_official_bridge.Prelude.{
  ℕ, ◌+◌, ◌≡◌, refl, ap, Bool, true, false, not, ◌||◌, Option, none, some, List, [], ◌∷◌, ◌++◌,
  arith, length, ltb, nat_eq, if_both, if_cases, elim_both,
}
use codex_official_bridge.Json.{undefined}
use codex_official_bridge.Rpc.{
  Rpc, RpcError, Event, exit, Outcome, resolved, rejected, new, fail, shut, stop_child, Child,
  Promise, sent, refused, note, notify, respond, respond_error, send_started, is_valid_id,
  write_failed, Sent, Message,
}
use codex_official_bridge.Rpc.Lines.{Line, take_line, append, scan, on_data, unless_closed, go_on}
use codex_official_bridge.Rpc.Lines.Cases.{on_line_cases}
use codex_official_bridge.Rpc.Process.{
  Spawn, throws, spawned, start, initialized, child_closed, stop_waited, close, new_child,
  set_exited, ready, initialize_params,
}
use codex_official_bridge.Rpc.Steps.{
  Step, after, step, run, starts, initializes, requests, notifies, responds, refuses, reads,
  times_out, write_fails, waits, closes, exits,
}
use codex_official_bridge.Rpc.Settlement.{
  IsSettling, count_pending, count_settled, issued, same-IsSettling, shut-IsSettling,
  stop_child-IsSettling, send-IsSettling, settle-IsSettling, request-IsSettling,
  request_now-IsSettling, time_out-IsSettling,
}

send_started-IsSettling :
    (m : Message) (s : Rpc) → IsSettling s → IsSettling (after s (send_started m s))
unfolding send_started
send_started-IsSettling m s h =
    if_both (λ r. IsSettling (after s r)) (not s.started || s.closed) _ _ h (send-IsSettling m s h)

module _ (listener : Event → Rpc → Rpc)
    (keeps : (e : Event) (s : Rpc) → IsSettling s → IsSettling (listener e s)) where
  fail-IsSettling : (e : RpcError) (s : Rpc) → IsSettling s → IsSettling (fail listener e s)
  unfolding fail
  fail-IsSettling e s h =
      if_both IsSettling s.closed _ _ h
        (stop_child-IsSettling _ (keeps (exit e) (shut e s) (shut-IsSettling e s h)))

  stopped-IsSettling :
      (e : RpcError) (s : Rpc) → IsSettling s → IsSettling (stop_child (fail listener e s))
  stopped-IsSettling e s h = stop_child-IsSettling _ (fail-IsSettling e s h)

  start-IsSettling :
      (spawn : Spawn) (ms : ℕ) (s : Rpc) → IsSettling s → IsSettling (start listener spawn ms s).1
  unfolding start
  start-IsSettling (throws e) ms s h = stopped-IsSettling e s h
  start-IsSettling spawned ms s h =
      if_cases (λ (r : Promise × Rpc). IsSettling r.1) s.closed _ _ (λ _. h)
        λ is_open.
          request_now-IsSettling "initialize" initialize_params ms
            (record s { child = some new_child }) is_open
            (same-IsSettling s _ refl refl refl refl h)

  ready-IsSettling :
      (r : Sent) (s : Rpc) → IsSettling (after s r) → IsSettling s → IsSettling (ready listener r s)
  ready-IsSettling (sent t) s k h =
      same-IsSettling t (record t { started = true }) refl refl refl refl k
  ready-IsSettling (refused e) s k h = stopped-IsSettling e s h

  initialized-IsSettling :
      (o : Outcome) (s : Rpc) → IsSettling s → IsSettling (initialized listener o s)
  unfolding initialized
  initialized-IsSettling (resolved v) s h =
      ready-IsSettling _ s (send-IsSettling (note "initialized" undefined) s h) h
  initialized-IsSettling (rejected e) s h = stopped-IsSettling e s h

  stop_waited-IsSettling : (s : Rpc) → IsSettling s → IsSettling (stop_waited listener s)
  unfolding stop_waited
  stop_waited-IsSettling s h =
      same-IsSettling s (stop_waited listener s) (ground arith) (ground arith) (ground arith)
        (ground arith) h

  module _ (decode : List ℕ → Line) (max_line_bytes : ℕ) where
    take_line-IsSettling : (s : Rpc) → IsSettling s → IsSettling (take_line listener decode s)
    unfolding take_line
    take_line-IsSettling s h =
        let emptied = record s { buffer = [] } in
        let k = same-IsSettling s emptied refl refl refl refl h in
        on_line_cases listener IsSettling emptied (λ e. fail-IsSettling e emptied k)
          (λ e. keeps e emptied k) (λ id o there. settle-IsSettling id o emptied there k) k decode
          s.buffer

    append-IsSettling :
        (slice : List ℕ) (s : Rpc)
        → IsSettling s
        → IsSettling (append listener decode max_line_bytes slice s).1
    unfolding append
    append-IsSettling slice s h =
        if_both (λ (r : Bool × Rpc). IsSettling r.1)
          (ltb max_line_bytes (length s.buffer + length slice)) _ _ (fail-IsSettling _ s h)
          (same-IsSettling s _ refl refl refl refl h)

    unless_closed-IsSettling :
        (k : Rpc → Rpc) (s : Rpc)
        → ((t : Rpc) → IsSettling t → IsSettling (k t))
        → IsSettling s
        → IsSettling (unless_closed listener decode max_line_bytes k s)
    unfolding unless_closed
    unless_closed-IsSettling k s f h = elim_both IsSettling s.closed s (k s) h (f s h)

    go_on-IsSettling :
        (k : Rpc → Rpc) (r : Bool × Rpc)
        → ((t : Rpc) → IsSettling t → IsSettling (k t))
        → IsSettling r.1
        → IsSettling (go_on listener decode max_line_bytes k r)
    go_on-IsSettling k (false, s) f h = h
    go_on-IsSettling k (true, s) f h = unless_closed-IsSettling k _ f (take_line-IsSettling s h)

    scan-IsSettling :
        (slice bs : List ℕ) (s : Rpc)
        → IsSettling s
        → IsSettling (scan listener decode max_line_bytes slice bs s)
    unfolding scan
    scan-IsSettling slice [] s h = append-IsSettling slice s h
    scan-IsSettling slice (b ∷ bs) s h =
        elim_both IsSettling (nat_eq b 10) _ _
          (go_on-IsSettling (scan listener decode max_line_bytes [] bs) _ (scan-IsSettling [] bs)
            (append-IsSettling slice s h))
          (scan-IsSettling (slice ++ b ∷ []) bs s h)

    set_exited-IsSettling :
        (c : Option Child) (s : Rpc) → IsSettling s → IsSettling (set_exited listener c s)
    set_exited-IsSettling none s h = h
    set_exited-IsSettling (some c) s h = same-IsSettling s _ refl refl refl refl h

    step-IsSettling :
        (e : Step) (s : Rpc) → IsSettling s → IsSettling (step listener decode max_line_bytes e s)
    unfolding step notify respond respond_error write_failed on_data close child_closed
    step-IsSettling (starts spawn ms) s h = start-IsSettling spawn ms s h
    step-IsSettling (initializes o) s h = initialized-IsSettling o s h
    step-IsSettling (requests method params ms) s h = request-IsSettling method params ms s h
    step-IsSettling (notifies method params) s h = send_started-IsSettling (note method params) s h
    step-IsSettling (responds id result) s h =
        if_both (λ r. IsSettling (after s r)) (not s.started || s.closed) _ _ h
          (if_both (λ r. IsSettling (after s r)) (is_valid_id id) _ _ (send-IsSettling _ s h) h)
    step-IsSettling (refuses id code message) s h =
        if_both (λ r. IsSettling (after s r)) (not s.started || s.closed) _ _ h
          (if_both (λ r. IsSettling (after s r)) (is_valid_id id) _ _ (send-IsSettling _ s h) h)
    step-IsSettling (reads chunk) s h =
        unless_closed-IsSettling (scan listener decode max_line_bytes [] chunk) s
          (scan-IsSettling [] chunk) h
    step-IsSettling (times_out id) s h = time_out-IsSettling s.pending id s (λ i there. there) h
    step-IsSettling write_fails s h = fail-IsSettling _ s h
    step-IsSettling waits s h = stop_waited-IsSettling s h
    step-IsSettling closes s h = stopped-IsSettling _ s h
    step-IsSettling (exits why) s h =
        fail-IsSettling _ (set_exited listener s.child s) (set_exited-IsSettling s.child s h)

    run-IsSettling :
        (s : Rpc) (es : List Step)
        → IsSettling s
        → IsSettling (run listener decode max_line_bytes s es)
    unfolding run
    run-IsSettling s [] h = h
    run-IsSettling s (e ∷ es) h =
        run-IsSettling (step listener decode max_line_bytes e s) es (step-IsSettling e s h)

new-IsSettling : IsSettling new
unfolding new
new-IsSettling = record {
  once = λ i. ground arith;
  none_left = λ closed. refl;
  positive = omega arith;
}

-- After any steps of a new client, for a listener that keeps the invariant itself: the ids that
-- were given out are 1, …, next - 1, and each is either pending once and not settled, or settled
-- once and not pending; every other id is neither. Once the client is closed none is pending.
pub run-once :
    (listener : Event → Rpc → Rpc) (decode : List ℕ → Line) (max_line_bytes : ℕ) (es : List Step)
    → ((e : Event) (s : Rpc) → IsSettling s → IsSettling (listener e s))
    → let s = run listener decode max_line_bytes new es in
      ((i : ℕ) → count_pending i s.pending + count_settled i s.settled ≡ issued s.next_id i)
      × (s.closed ≡ true → (i : ℕ) → count_settled i s.settled ≡ issued s.next_id i)
run-once listener decode max_line_bytes es keeps =
    let h = run-IsSettling listener keeps decode max_line_bytes new es new-IsSettling in
    (h.once, λ closed i. omega (arith, h.once i, ap (count_pending i) (h.none_left closed)))
