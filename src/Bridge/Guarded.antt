-- ===== src/Bridge/Guarded.antt =====
-- src/bridge.mjs: what the app-server may not do ends the session.
use codex_official_bridge.Prelude.{
  ◌≡◌, ◌⊎◌, true, false, not, ◌&&◌, none, some, ◌==◌, Bool-cases, inl, inr,
}
use codex_official_bridge.Json.{Value, get, is_truthy, strict_eq}
use codex_official_bridge.Protocol.Error.{Thrown, Result, ok, throw}
use codex_official_bridge.Action.{recover, try_catch, ◌>>=◌}
use codex_official_bridge.Bridge.{Bridge, Session, Notice, World}
use codex_official_bridge.Bridge.Ending.{fail}
use codex_official_bridge.Bridge.Events.{
  is_about, accepted_call, request_from, consume_server_request, on_server_request, bridge_or,
  upstream_event,
}
use codex_official_bridge.Bridge.Ended.{IsEnded, fail-IsEnded}
use codex_official_bridge.Bridge.Strange.{IsRefused, IsRefused-accepted_call}

abbrev EndsWell : Result (Unit {0}) × Bridge → Type 0
EndsWell (ok u, b) = IsEnded b
EndsWell (throw e, b) = Unit

well : (p : Result (Unit {0}) × Bridge) → IsEnded p.1 → EndsWell p
well (ok u, b) h = h
well (throw e, b) h = tt

caught-IsEnded :
    (default : Thrown) (p : Result (Unit {0}) × Bridge)
    → EndsWell p
    → IsEnded (recover (λ e. fail (bridge_or default e)) p.0 p.1).1
caught-IsEnded default (ok u, b) h = h
caught-IsEnded default (throw e, b) h = fail-IsEnded (bridge_or default e) b

then_fail :
    (r : Result (Unit {0})) (e : Thrown) (b : Bridge) → EndsWell (((λ c. (r, c)) >>= λ u. fail e) b)
unfolding ◌>>=◌
then_fail (ok u) e b = well (fail e b) (fail-IsEnded e b)
then_fail (throw t) e b = tt

request_from-EndsWell :
    (world : World) (n : Notice) (id : Value) (s : Session) (b : Bridge)
    → is_about s n ≡ true
    → (n.method == "item/tool/call" ≡ false) ⊎ (accepted_call s n.params ≡ none)
    → EndsWell (request_from world n id (some s) b)
unfolding ◌>>=◌
request_from-EndsWell world n id s b about (inl differs) = rw (differs, about) (then_fail _ _ _)
request_from-EndsWell world n id s b about (inr refused) =
    elim (Bool-cases (n.method == "item/tool/call")) [
      | inl call ↦ rw (call, about, refused) (then_fail _ _ _)
      | inr differs ↦ rw (differs, about) (then_fail _ _ _)
    ]

-- A request of the app-server about the thread of the session leaves no session, and the call of
-- `respond` that runs, if any, has its result, also where the refusal cannot be sent, for each of
-- these reasons: its method is not `item/tool/call`; its tool has not the prefix of the registered
-- names, or a number that no tool of the session has; its call id is no text or was used before;
-- its arguments are no object; it has a namespace; its turn is no text, or not the one under way.
pub on_server_request-IsEnded :
    (world : World) (n : Notice) (id : Value) (s : Session) (b : Bridge)
    → b.session ≡ some s
    → is_about s n ≡ true
    → IsRefused s n
    → IsEnded (on_server_request world n id b).1
unfolding on_server_request try_catch consume_server_request ◌>>=◌
on_server_request-IsEnded world n id s b there about bad = simp there (
    caught-IsEnded (upstream_event "Malformed Codex tool request.")
      (request_from world n id (some s) b)
      (request_from-EndsWell world n id s b about (IsRefused-accepted_call s n bad)))

-- Names no other turn than the one under way.
abbrev IsSameTurn : Session → Notice → Type 0
IsSameTurn s n =
    (is_truthy (get n.params "turnId")
      && is_truthy s.turn_id
      && not (strict_eq (get n.params "turnId") s.turn_id))
    ≡ false

-- None of the methods that are handled before the items are looked at.
abbrev IsLate : Notice → Type 0
IsLate n =
    (n.method == "turn/started" ≡ false)
    × (n.method == "thread/tokenUsage/updated" ≡ false)
    × (n.method == "error" ≡ false)
