-- ===== src/Bridge/Steps.antt =====
-- src/bridge.mjs: everything that can happen to a bridge, in any order; the listeners of the
-- constructor, the timers and `close` are here.
use codex_official_bridge.Prelude.{
  ℕ, suc, zero, Bool, true, false, Option, none, some, List, [], ◌∷◌,
}
use codex_official_bridge.Json.{Value}
use codex_official_bridge.Protocol.Error.{Thrown, bridge, bridge_error}
use codex_official_bridge.Protocol.Segment.{Event}
use codex_official_bridge.Action.{Action, pure, gets, modify, when, ◌>>=◌, ◌>>◌}
use codex_official_bridge.Rpc.{Outcome}
use codex_official_bridge.Bridge.{Bridge, Operation, Notice, Drive, World}
use codex_official_bridge.Bridge.Ending.{fail, release_session, is_unsettled, unsubscribe}
use codex_official_bridge.Bridge.Events.{on_notification, on_server_request}
use codex_official_bridge.Bridge.Respond.{respond, prepared, abort, return_result}
use codex_official_bridge.Bridge.Driving.{continue}

pub data Step : Type 0 where
  -- A call of `respond`, and the waits of its body that end.
  responds : Value → (List (ℕ × Event) → ℕ × Event → Option Thrown) → (aborted : Bool) → Step
  prepares returns : Step
  -- The wait of a run of `drive` ends.
  continues : (index : ℕ) → Outcome → Step
  notifies : Notice → Step
  asks : Notice → (id : Value) → Step
  -- The signal, the timer of the request, and the timer of the session.
  aborts expires idles : Step
  -- The `exit` event of the client, `close`, and the end of an interrupt.
  exits closes leaves : Step

abbrev pub is_there : Option Operation → Bool
is_there none = false
is_there (some op) = true

abbrev pick : ℕ → List Drive → Option (Drive × List Drive)
pick i [] = none
pick zero (d ∷ ds) = some (d, ds)
pick (suc i) (d ∷ ds) = elim (pick i ds) [ none ↦ none | some (e, rest) ↦ some (e, d ∷ rest) ]

timed_out : Thrown
timed_out = bridge (
    bridge_error 504 "generation_timeout" "The generation timed out; its session cannot be resumed."
      none)

exited : Thrown
exited = bridge (
    bridge_error 503 "codex_unavailable" "Official Codex app-server exited; restart the bridge."
      none)

shutting_down : Thrown
shutting_down = bridge (bridge_error 503 "bridge_shutdown" "The bridge is shutting down." none)

-- `close()`, up to its wait; `this.rpc.close()` follows it.
unfoldable pub close : Action Bridge (Unit {0})
unfolding shutting_down
close = do
  unsettled ← gets (λ b. is_unsettled b.operation)
  when unsettled (fail shutting_down)
  modify (λ b. record b { closed = true })
  release_session

unfoldable pub on_exit : Action Bridge (Unit {0})
unfolding exited
on_exit = do modify (λ b. record b { closed = true }); fail exited

abbrev leave_from : List Value → Action Bridge (Unit {0})
leave_from [] = pure tt
leave_from (thread ∷ rest) = do modify (λ b. record b { leaving = rest }); unsubscribe thread 3000

module _ (world : World) where
  abbrev continue_from : Outcome → Option (Drive × List Drive) → Action Bridge (Unit {0})
  continue_from outcome none = pure tt
  continue_from outcome (some (d, rest)) = do
    modify (λ b. record b { drives = rest })
    continue world d outcome

  -- A timer that was cleared does not fire, and a listener that was removed is not called.
  unfoldable pub step : Step → Action Bridge (Unit {0})
  unfolding timed_out
  step (responds body on_event aborted) = respond world body on_event aborted
  step prepares = prepared world
  step returns = return_result
  step (continues i outcome) = do picked ← gets (λ b. pick i b.drives); continue_from outcome picked
  step (notifies n) = on_notification n
  step (asks n id) = on_server_request world n id
  step aborts = do
    there ← gets (λ b. is_there b.operation)
    modify (λ b. record b { aborted = true })
    when there abort
  step expires = do there ← gets (λ b. is_there b.operation); when there (fail timed_out)
  step idles = do set ← gets (λ b. b.timer); when set release_session
  step exits = on_exit
  step closes = close
  step leaves = do threads ← gets (λ b. b.leaving); leave_from threads

  unfoldable pub run : Bridge → List Step → Bridge
  run b [] = b
  run b (e ∷ es) = run (step e b).1 es
