-- ===== src/Image/Stdio/Answering.antt =====
-- scripts/desktop-image-mcp.mjs, `handle` of `serveStdio`: the invariant of the calls and their
-- results, and that a message keeps it.
use codex_official_bridge.Prelude.{
  ℕ, ◌+◌, ◌≤◌, String, ◌≡◌, refl, ap, Bool, true, false, not, not-false, ◌||◌, inl, inr, [], arith,
  Bool-cases, if◌then◌else◌, if_both, if_cases,
}
use codex_official_bridge.Json.{Value, null, strict_eq, get, is_undefined, is_string, is_text}
use codex_official_bridge.Json.Keys.{strict_eq-path}
use codex_official_bridge.Image.{Outcome, done, failed}
use codex_official_bridge.Image.Stdio.{
  Call, Reply, hello, pong, tool_list, result, Server, send, refuse, has_active, call_of,
  start_call, notice, answer, handle, version_of, is_request, is_number,
}
use codex_official_bridge.Image.Stdio.Counts.{
  count_active, result_for, count_results, count_started, count_active-append, count_results-append,
  count_started-append, count_active-abort_at, has_active-none,
}

pub record IsAnswering (s : Server) : Type 0 where
  pub once :
      (i : Value) → count_active i s.active + count_results i s.sent ≡ count_started i s.started
  pub alone : (i : Value) → count_active i s.active ≤ 1
  pub guarded : s.initialized ≡ false → s.started ≡ []

-- A line of output that is no result of a tool call.
abbrev IsPlain : Reply → Type 0
IsPlain r = (i : Value) → result_for i r ≡ 0

send-IsAnswering : (r : Reply) (s : Server) → IsPlain r → IsAnswering s → IsAnswering (send r s)
send-IsAnswering r s plain h = record {
  once = λ i. omega (arith, h.once i, count_results-append i s.sent r, plain i);
  alone = h.alone;
  guarded = h.guarded;
}

start_call-IsAnswering :
    (id : Value) (c : Outcome Call) (s : Server)
    → has_active id s.active ≡ false
    → s.initialized ≡ true
    → IsAnswering s
    → IsAnswering (start_call id c s)
start_call-IsAnswering id (failed e) s fresh ready h = record {
  once = λ i. omega (
    arith,
    h.once i,
    count_results-append i s.sent (result id (failed e)),
    count_started-append i s.started id,
  );
  alone = h.alone;
  guarded = λ not_ready. cc;
}
start_call-IsAnswering id (done call) s fresh ready h = record {
  once = λ i. omega (
    arith,
    h.once i,
    count_active-append i s.active (record { id = id; call = call; aborted = false }),
    count_started-append i s.started id,
  );
  alone = λ i. elim (Bool-cases (strict_eq id i)) [
    | inl e ↦ ground (
      arith,
      e,
      count_active-append i s.active (record { id = id; call = call; aborted = false }),
      has_active-none id s.active fresh,
      ap (λ v. count_active v s.active) (strict_eq-path id i e),
    )
    | inr n ↦ ground (
      arith,
      n,
      h.alone i,
      count_active-append i s.active (record { id = id; call = call; aborted = false }),
    )
  ];
  guarded = λ not_ready. cc;
}

pub refuse-IsAnswering :
    (id : Value) (minus : ℕ) (message : String) (s : Server)
    → IsAnswering s
    → IsAnswering (refuse id minus message s)
refuse-IsAnswering id minus message s h = send-IsAnswering _ s (λ i. refl) h

notice-IsAnswering : (message : Value) (s : Server) → IsAnswering s → IsAnswering (notice message s)
unfolding notice
notice-IsAnswering message s h =
    if_both IsAnswering _ _ _
      (record {
        once = λ i. omega (
          arith,
          h.once i,
          count_active-abort_at i (get (get message "params") "requestId") s.active,
        );
        alone = λ i. omega (
          arith,
          h.alone i,
          count_active-abort_at i (get (get message "params") "requestId") s.active,
        );
        guarded = h.guarded;
      })
      h

opened-IsAnswering : (s : Server) → IsAnswering s → IsAnswering (record s { initialized = true })
opened-IsAnswering s h = record {
  once = h.once;
  alone = h.alone;
  guarded = λ (not_ready : true ≡ false). cc;
}

if_both_or :
    {A : Type 0} (P : A → Type 0) (b : Bool) (x y : A)
    → P x
    → (b ≡ false → P y)
    → P (if b then x else y)
if_both_or P b x y p q = if_cases P b x y (λ e. p) q

answer-IsAnswering :
    (id message : Value) (s : Server) → IsAnswering s → IsAnswering (answer id message s)
unfolding answer
answer-IsAnswering id message s h =
    if_both IsAnswering (is_text "initialize" method) _ _
      (send-IsAnswering (hello id (version_of (get params "protocolVersion"))) _ (λ i. refl)
        (opened-IsAnswering s h))
      (if_both IsAnswering (is_text "ping" method) _ _ (send-IsAnswering (pong id) s (λ i. refl) h)
        (if_both_or IsAnswering (not s.initialized) _ _ (refuse-IsAnswering id _ _ s h) λ ready.
          if_both IsAnswering (is_text "tools/list" method) _ _
            (send-IsAnswering (tool_list id) s (λ i. refl) h)
            (if_both IsAnswering (not (is_text "tools/call" method)) _ _
              (refuse-IsAnswering id _ _ s h)
              (if_both_or IsAnswering (has_active id s.active) _ _ (refuse-IsAnswering id _ _ s h)
                λ fresh.
                  start_call-IsAnswering id (call_of params) s fresh (not-false s.initialized ready)
                    h))))
  where
    method : Value
    method = get message "method"

    params : Value
    params = get message "params"

pub handle-IsAnswering :
    (message : Value) (s : Server) → IsAnswering s → IsAnswering (handle message s)
unfolding handle
handle-IsAnswering message s h =
    if_both IsAnswering (not (is_request message)) _ _
      (refuse-IsAnswering (get message "id") _ _ s h)
      (if_both IsAnswering (is_undefined (get message "id")) _ _ (notice-IsAnswering message s h) (
        if_both IsAnswering (not (is_string (get message "id") || is_number (get message "id"))) _ _
          (refuse-IsAnswering null _ _ s h) (answer-IsAnswering (get message "id") message s h)))
