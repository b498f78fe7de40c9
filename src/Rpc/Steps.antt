-- ===== src/Rpc/Steps.antt =====
-- src/rpc.mjs: everything that can happen to a client, in any order.
use codex_official_bridge.Prelude.{ℕ, String, List, [], ◌∷◌}
use codex_official_bridge.Json.{Value}
use codex_official_bridge.Rpc.{
  Rpc, Event, Outcome, Sent, sent, refused, request, notify, respond, respond_error, time_out,
  write_failed,
}
use codex_official_bridge.Rpc.Lines.{Line, on_data}
use codex_official_bridge.Rpc.Process.{Spawn, start, initialized, child_closed, stop_waited, close}

pub data Step : Type 0 where
  starts : Spawn → (timeout_ms : ℕ) → Step
  initializes : Outcome → Step
  requests : (method : String) → (params : Value) → (timeout_ms : ℕ) → Step
  notifies : (method : String) → (params : Value) → Step
  responds : (id result : Value) → Step
  refuses : (id code : Value) → (message : String) → Step
  reads : (chunk : List ℕ) → Step
  times_out : (id : ℕ) → Step
  write_fails waits closes : Step
  exits : (why : String) → Step

-- A send that throws leaves the client as it was.
abbrev pub after : Rpc → Sent → Rpc
after s (sent t) = t
after s (refused e) = s

module _ (listener : Event → Rpc → Rpc) (decode : List ℕ → Line) (max_line_bytes : ℕ) where
  unfoldable pub step : Step → Rpc → Rpc
  step (starts spawn timeout_ms) s = (start listener spawn timeout_ms s).1
  step (initializes outcome) s = initialized listener outcome s
  step (requests method params timeout_ms) s = (request method params timeout_ms s).1
  step (notifies method params) s = after s (notify method params s)
  step (responds id result) s = after s (respond id result s)
  step (refuses id code message) s = after s (respond_error id code message s)
  step (reads chunk) s = on_data listener decode max_line_bytes chunk s
  step (times_out id) s = time_out s.pending id s
  step write_fails s = write_failed listener s
  step waits s = stop_waited listener s
  step closes s = close listener s
  step (exits why) s = child_closed listener why s

  unfoldable pub run : Rpc → List Step → Rpc
  run s [] = s
  run s (e ∷ es) = run (step e s) es
