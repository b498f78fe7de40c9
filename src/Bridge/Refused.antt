-- ===== src/Bridge/Refused.antt =====
-- src/bridge.mjs: which calls of `respond` are refused, and what they change.
use codex_official_bridge.Prelude.{◌≡◌, ◌≢◌, refl, Bool, true, Option, List, ℕ, if_both}
use codex_official_bridge.Json.{Value}
use codex_official_bridge.Protocol.Error.{Thrown, Result, ok, throw}
use codex_official_bridge.Action.{◌>>=◌}
use codex_official_bridge.Protocol.Request.{Request, validate_request}
use codex_official_bridge.Protocol.Segment.{Event}
use codex_official_bridge.Bridge.{Bridge, World}
use codex_official_bridge.Bridge.Checks.{admit, check_continuation}
use codex_official_bridge.Bridge.Respond.{respond, with_request, admitted}
use codex_official_bridge.Bridge.Continued.{admit-Admits}
use codex_official_bridge.Bridge.Conflict.{IsConflict, Throws, Throws-differs, IsConflict-Throws}

-- Why a call of `respond` is refused: the bridge is closed or serves another call, the client is
-- gone, the body is no request, or the request does not fit the session.
pub data IsInadmissible (world : World) (body : Value) (aborted : Bool) (b : Bridge) : Type 0 where
  shut : b.closed ≡ true → IsInadmissible world body aborted b
  occupied : b.busy ≡ true → IsInadmissible world body aborted b
  gone : aborted ≡ true → IsInadmissible world body aborted b
  malformed :
      (e : Thrown)
      → validate_request body world.default_model ≡ throw e
      → IsInadmissible world body aborted b
  conflicting :
      ((req : Request)
        → validate_request body world.default_model ≡ ok req
        → IsConflict req b.session)
      → IsInadmissible world body aborted b

admit-Throws :
    (req : Request) (aborted : Bool) (b : Bridge)
    → Throws (check_continuation req b.session)
    → Throws (admit req aborted b)
unfolding admit
admit-Throws req aborted b h =
    if_both Throws b.closed _ _ tt (if_both Throws b.busy _ _ tt (if_both Throws aborted _ _ tt h))

IsInadmissible-admit :
    (world : World) (body : Value) (aborted : Bool) (b : Bridge)
    → IsInadmissible world body aborted b
    → (req : Request) → validate_request body world.default_model ≡ ok req
    → admit req aborted b ≢ ok tt
IsInadmissible-admit world body aborted b (shut h) req v e =
    let (closed, busy, left, fits) = admit-Admits req aborted b e in cc
IsInadmissible-admit world body aborted b (occupied h) req v e =
    let (closed, busy, left, fits) = admit-Admits req aborted b e in cc
IsInadmissible-admit world body aborted b (gone h) req v e =
    let (closed, busy, left, fits) = admit-Admits req aborted b e in cc
IsInadmissible-admit world body aborted b (malformed t h) req v e = cc
IsInadmissible-admit world body aborted b (conflicting h) req v e =
    Throws-differs (admit req aborted b)
      (admit-Throws req aborted b (IsConflict-Throws req b.session (h req v))) e

refused-unchanged :
    (world : World) (on_event : List (ℕ × Event) → ℕ × Event → Option Thrown) (aborted : Bool)
    (r : Result Request) (b : Bridge)
    → ((req : Request) → r ≡ ok req → admit req aborted b ≢ ok tt)
    → (e : Thrown) × (with_request world on_event aborted r b ≡ (throw e, b))
unfolding ◌>>=◌
refused-unchanged world on_event aborted (throw e) b h = (e, refl)
refused-unchanged world on_event aborted (ok req) b h = verdict (admit req aborted b) (h req refl)
  where
    verdict :
        (v : Result (Unit {0}))
        → v ≢ ok tt
        → (e : Thrown) × (admitted world (record { request = req; on_event = on_event }) v b
            ≡ (throw e, b))
    verdict (ok u) differs = elim (differs refl) [ ]
    verdict (throw e) differs = (e, refl)

-- A call of `respond` throws and leaves the bridge as it was, the response that runs and its
-- session included, for each of these reasons: the bridge is closed or serves another call; the
-- client is gone; the body is no request; or the request starts a session while one has a call or a
-- turn under way, continues none or an older response, or one that failed, has another model, other
-- instructions, another effort or other tools, answers no call that waits, or is a text while a
-- call or a turn is under way.
pub respond-unchanged :
    (world : World) (body : Value) (on_event : List (ℕ × Event) → ℕ × Event → Option Thrown)
    (aborted : Bool) (b : Bridge)
    → IsInadmissible world body aborted b
    → (e : Thrown) × (respond world body on_event aborted b ≡ (throw e, b))
unfolding respond
respond-unchanged world body on_event aborted b h =
    refused-unchanged world on_event aborted (validate_request body world.default_model) b
      (IsInadmissible-admit world body aborted b h)
