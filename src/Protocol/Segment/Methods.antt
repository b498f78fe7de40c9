-- ===== src/Protocol/Segment/Methods.antt =====
-- src/protocol.mjs: the public methods of `ResponseSegment`, called in any order, with any arguments.
use codex_official_bridge.Prelude.{String, List, [], ◌∷◌}
use codex_official_bridge.Json.{Value}
use codex_official_bridge.Protocol.Error.{Thrown}
use codex_official_bridge.Action.{Action, pure, ◌>>◌}
use codex_official_bridge.Action.Keeps.{Keeps}
use codex_official_bridge.Protocol.Segment.{
  Segment, start, text_delta_of, complete_message, tool_call, finish, fail,
}

pub data Method : Type 0 where
  starts : Method
  deltas : Value → String → Method
  completes : Value → Method
  calls : (call_id name : String) → Value → Method
  finishes : Value → Method
  fails : Thrown → Method

unfoldable pub perform : Method → Action Segment (Unit {0})
perform starts = start
perform (deltas item_id delta) = text_delta_of item_id delta
perform (completes raw) = complete_message raw
perform (calls call_id name args) = tool_call call_id name args
perform (finishes usage) = do finish usage; pure tt
perform (fails e) = fail e

-- A method that throws has done what it did; the next call goes on from there.
unfoldable pub run : Segment → List Method → Segment
run s [] = s
run s (m ∷ ms) = run (perform m s).1 ms

pub run_induction :
    (P : Segment → Type 0)
    → ((m : Method) → Keeps P (perform m))
    → (s : Segment) (ms : List Method) → P s
    → P (run s ms)
unfolding run
run_induction P step s [] h = h
run_induction P step s (m ∷ ms) h = run_induction P step (perform m s).1 ms ((step m).at s h)
