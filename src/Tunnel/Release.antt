-- ===== src/Tunnel/Release.antt =====
-- src/native-websocket.mjs: the promise of a tunnel ends once, and what it held is released.
use codex_official_bridge.Prelude.{
  ℕ, String, ◌≡◌, refl, Bool, true, false, not, ◌||◌, nat_eq, List, [], ◌∷◌, length, arith, if_both,
  if_cases, if◌then◌else◌,
}
use codex_official_bridge.Tunnel.{
  Tunnel, new, fail, on_abort, on_close, on_upgrade, on_response, on_upstream_error, on_peer_close,
  begin, Event, upgrades, responds, upstream_fails, peer_fails, response_fails, socket_fails,
  peer_closes, closes, aborts, expires, step, run, tunnel,
}

-- The promise has ended as often as `settled` says; once it has, the request is destroyed, no peer
-- is open, the timer is off and the listener is removed.
pub record IsReleased (t : Tunnel) : Type 0 where
  pub once : length t.ends ≡ (if t.settled then 1 else 0)
  pub upstream : t.settled ≡ true → t.upstream_destroyed ≡ true
  pub peer : t.settled ≡ true → t.peer_open ≡ false
  pub deadline : t.settled ≡ true → t.deadline ≡ false
  pub listening : t.settled ≡ true → t.listening ≡ false

fail-IsReleased : (code : String) (t : Tunnel) → IsReleased t → IsReleased (fail code t)
unfolding fail
fail-IsReleased code t h = record {
  once = ground (arith, h.once);
  upstream = λ e. ground (arith, h.upstream);
  peer = λ e. ground (arith, h.peer);
  deadline = λ e. ground (arith, h.deadline);
  listening = λ e. ground (arith, h.listening);
}

on_abort-IsReleased : (t : Tunnel) → IsReleased t → IsReleased (on_abort t)
unfolding on_abort
on_abort-IsReleased t h = record {
  once = ground (arith, h.once);
  upstream = λ e. ground (arith, h.upstream);
  peer = λ e. ground (arith, h.peer);
  deadline = λ e. ground (arith, h.deadline);
  listening = λ e. ground (arith, h.listening);
}

on_close-IsReleased : (t : Tunnel) → IsReleased t → IsReleased (on_close t)
unfolding on_close
on_close-IsReleased t h = record {
  once = ground (arith, h.once);
  upstream = λ e. ground (arith, h.upstream);
  peer = λ e. ground (arith, h.peer);
  deadline = λ e. ground (arith, h.deadline);
  listening = λ e. ground (arith, h.listening);
}

on_upgrade-IsReleased :
    (status : ℕ) (is_websocket aborted : Bool) (t : Tunnel)
    → IsReleased t
    → IsReleased (on_upgrade status is_websocket aborted t)
unfolding on_upgrade
on_upgrade-IsReleased status is_websocket aborted t h =
    if_cases IsReleased (t.settled || t.socket_destroyed || aborted) _ _ (λ over. h)
      λ under_way.
        if_both IsReleased (not (nat_eq status 101) || not is_websocket) _ _ (fail-IsReleased _ t h)
          (record {
            once = h.once;
            upstream = λ e. h.upstream e;
            peer = λ e. ground (arith, under_way, e);
            deadline = λ e. refl;
            listening = λ e. h.listening e;
          })

step-IsReleased : (e : Event) (t : Tunnel) → IsReleased t → IsReleased (step e t)
unfolding step on_response on_upstream_error on_peer_close
step-IsReleased (upgrades status w a) t h = on_upgrade-IsReleased status w a t h
step-IsReleased (responds status) t h =
    if_both IsReleased (t.settled || t.upgraded || t.socket_destroyed) _ _ h (record {
      once = h.once;
      upstream = h.upstream;
      peer = h.peer;
      deadline = h.deadline;
      listening = h.listening;
    })
step-IsReleased upstream_fails t h = if_both IsReleased t.settled _ _ h (fail-IsReleased _ t h)
step-IsReleased peer_fails t h = fail-IsReleased _ t h
step-IsReleased response_fails t h = fail-IsReleased _ t h
step-IsReleased socket_fails t h = on_abort-IsReleased t h
step-IsReleased (peer_closes readable_ended) t h =
    if_both IsReleased (not readable_ended) _ _
      (record {
        once = h.once;
        upstream = h.upstream;
        peer = λ e. refl;
        deadline = h.deadline;
        listening = h.listening;
      })
      (if_both IsReleased (not t.socket_ended) _ _
        (record {
          once = h.once;
          upstream = h.upstream;
          peer = λ e. refl;
          deadline = h.deadline;
          listening = h.listening;
        })
        (record {
          once = h.once;
          upstream = h.upstream;
          peer = λ e. refl;
          deadline = h.deadline;
          listening = h.listening;
        }))
step-IsReleased closes t h = on_close-IsReleased t h
step-IsReleased aborts t h = if_both IsReleased t.listening _ _ (on_abort-IsReleased t h) h
step-IsReleased expires t h = if_both IsReleased t.deadline _ _ (fail-IsReleased _ t h) h

run-IsReleased : (t : Tunnel) (es : List Event) → IsReleased t → IsReleased (run t es)
unfolding run
run-IsReleased t [] h = h
run-IsReleased t (e ∷ es) h = run-IsReleased (step e t) es (step-IsReleased e t h)

new-IsReleased : IsReleased new
unfolding new
new-IsReleased = record {
  once = refl;
  upstream = λ e. cc;
  peer = λ e. refl;
  deadline = λ e. cc;
  listening = λ e. refl;
}

begin-IsReleased : (aborted : Bool) → IsReleased (begin aborted new)
unfolding begin new
begin-IsReleased true = on_abort-IsReleased new new-IsReleased
begin-IsReleased false = record {
  once = refl;
  upstream = λ e. cc;
  peer = λ e. refl;
  deadline = λ e. cc;
  listening = λ e. cc;
}

-- After any events of a new tunnel, in any order: its promise has ended at most once, and once it
-- has, the request to the runtime is destroyed, no peer is open, the timer of the handshake is off
-- and the listener of the signal is removed.
pub tunnel-IsReleased : (aborted : Bool) (es : List Event) → IsReleased (tunnel aborted es)
unfolding tunnel
tunnel-IsReleased aborted es = run-IsReleased (begin aborted new) es (begin-IsReleased aborted)
