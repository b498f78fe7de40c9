-- ===== src/Bridge/Ended.antt =====
-- src/bridge.mjs: what `fail` leaves, and when the bridge fails.
use codex_official_bridge.Prelude.{
  ℕ, String, ◌&&◌, ◌≡◌, refl, sym, subst, false, Option, none, some, Bool-cases, inl, inr,
}
use codex_official_bridge.Json.{Value, is_truthy}
use codex_official_bridge.Protocol.Error.{Thrown, Result, ok, throw}
use codex_official_bridge.Protocol.Segment as Segments
use codex_official_bridge.Action.{Action, pure, modify, when, recover, try_catch, ◌>>=◌}
use codex_official_bridge.Action.Keeps.{
  Keeps, Keeps-bind, Keeps-if, Keeps-when, Keeps-pure, Keeps-for_each, Keeps-try_catch,
}
use codex_official_bridge.Rpc.{Sent, sent, refused}
use codex_official_bridge.Bridge.{
  Bridge, Session, Operation, ToolCall, after_send, rpc_respond, rpc_request,
}
use codex_official_bridge.Bridge.Ending.{
  fail, release_session, release_from, leave_thread, interrupt, unsubscribe, cancel_call,
  is_unsettled, settle, with_result, on_segment, outstanding,
}

-- There is no session, its timer is off, and no call of `respond` waits for a result.
pub record IsEnded (b : Bridge) : Type 0 where
  pub no_session : b.session ≡ none
  pub no_timer : b.timer ≡ false
  pub no_wait : is_unsettled b.operation ≡ false

-- What changes none of the three, and no end of a call.
abbrev pub SameEnd : Bridge → Bridge → Type 0
SameEnd b c =
    (c.session ≡ b.session)
    × (c.timer ≡ b.timer)
    × (c.operation ≡ b.operation)
    × (c.returned ≡ b.returned)

same-IsEnded : (b c : Bridge) → SameEnd b c → IsEnded b → IsEnded c
same-IsEnded b c (s, t, o, r) h = record {
  no_session = rw s h.no_session;
  no_timer = rw t h.no_timer;
  no_wait = rw o h.no_wait;
}

after_send-SameEnd : (b : Bridge) (r : Sent) → SameEnd b (after_send b r).1
after_send-SameEnd b (sent t) = (refl, refl, refl, refl)
after_send-SameEnd b (refused e) = (refl, refl, refl, refl)

-- An invariant that hangs on those alone.
module _ (Inv : Bridge → Type 0) (same : (b c : Bridge) → SameEnd b c → Inv b → Inv c) where
  rpc_respond-Keeps : (id result : Value) → Keeps Inv (rpc_respond id result)
  unfolding rpc_respond
  rpc_respond-Keeps id result = record { at = λ b h. same b _ (after_send-SameEnd b _) h }

  rpc_request-Keeps :
      (method : String) (params : Value) (ms : ℕ) → Keeps Inv (rpc_request method params ms)
  unfolding rpc_request
  rpc_request-Keeps method params ms = record { at = λ b h. same b _ (refl, refl, refl, refl) h }

  cancel_call-Keeps : (call : ToolCall) → Keeps Inv (cancel_call call)
  unfolding cancel_call
  cancel_call-Keeps call = Keeps-try_catch _ _ (rpc_respond-Keeps _ _) (λ e. Keeps-pure tt)

  unsubscribe-Keeps : (thread : Value) (ms : ℕ) → Keeps Inv (unsubscribe thread ms)
  unfolding unsubscribe
  unsubscribe-Keeps thread ms = rpc_request-Keeps _ _ ms

  interrupt-Keeps : (s : Session) → Keeps Inv (interrupt s)
  unfolding interrupt
  interrupt-Keeps s =
      Keeps-bind _ _ (rpc_request-Keeps _ _ _)
        λ u. record { at = λ b h. same b _ (refl, refl, refl, refl) h }

  leave_thread-Keeps : (s : Session) → Keeps Inv (leave_thread s)
  unfolding leave_thread
  leave_thread-Keeps s =
      Keeps-if (is_truthy s.thread_id && is_truthy s.turn_id) (interrupt s)
        (when (is_truthy s.thread_id) (unsubscribe s.thread_id 3000)) (λ both. interrupt-Keeps s)
        (λ neither.
          Keeps-when (is_truthy s.thread_id) _ (λ thread. unsubscribe-Keeps s.thread_id 3000))

  pub release_from-Keeps : (s : Option Session) → Keeps Inv (release_from s)
  release_from-Keeps none = Keeps-pure tt
  release_from-Keeps (some s) =
      Keeps-bind _ _ (Keeps-for_each cancel_call (outstanding s) cancel_call-Keeps)
        λ u. leave_thread-Keeps s

release_session-ends :
    (b : Bridge) → is_unsettled b.operation ≡ false → IsEnded (release_session b).1
unfolding release_session ◌>>=◌
release_session-ends b h =
    (release_from-Keeps IsEnded same-IsEnded b.session).at
      (record b { timer = false; session = none })
      (record { no_session = refl; no_timer = refl; no_wait = h })

-- What a `catch` that does nothing leaves goes on.
absorbed :
    (r : Result (Unit {0})) (k : Action Bridge (Unit {0})) (b : Bridge)
    → ((λ c. recover (λ e. pure tt) r c) >>= λ u. k) b ≡ k b
unfolding ◌>>=◌
absorbed (ok u) k b = refl
absorbed (throw e) k b = refl

settled :
    (r : Result Segments.Response) (op : Option Operation) → is_unsettled (with_result r op) ≡ false
settled r none = refl
settled r (some op) = refl

abbrev ThenRelease : Result (Unit {0}) × Bridge → Type 0
ThenRelease p = IsEnded (((λ c. p) >>= λ u. release_session) p.1).1

-- After `fail`, whatever the state and the error, and whether or not the event sink throws: there
-- is no session, its timer is off, and the call of `respond` that ran, if any, has its result.
pub fail-IsEnded : (e : Thrown) (b : Bridge) → IsEnded (fail e b).1
unfolding fail ◌>>=◌ try_catch
fail-IsEnded e b = elim (Bool-cases (is_unsettled b.operation)) [
  | inl unsettled ↦ rw unsettled (
      let (r, c) = on_segment (Segments.fail e) b in
      subst ThenRelease (sym (absorbed r (modify (settle (throw e))) c))
        (release_session-ends (settle (throw e) c) (settled (throw e) c.operation)))
  | inr idle ↦ rw idle (release_session-ends b idle)
]
