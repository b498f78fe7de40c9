-- ===== src/Image/Stdio/Once.antt =====
-- scripts/desktop-image-mcp.mjs, `serveStdio`: each tool call that starts runs or has its result.
use codex_official_bridge.Prelude.{
  ◌+◌, ◌≤◌, ◌≡◌, refl, Bool, true, false, Option, none, some, List, [], ◌∷◌, ◌++◌, arith, ltb,
  nat_eq, if_both, if_cases, elim_both, length,
}
use codex_official_bridge.Json.{Value, null}
use codex_official_bridge.Codes.{Codes}
use codex_official_bridge.Image.{Outcome}
use codex_official_bridge.Image.Stdio.{
  result, Server, new, has_active, settle, abort_calls, on_message, on_line, take_lines, on_data,
  Step, receives, settles, ends, step, run,
}
use codex_official_bridge.Image.Stdio.Counts.{
  count_active, count_results, count_started, count_results-append, count_active-abort_all,
  count_active-drop_at,
}
use codex_official_bridge.Image.Stdio.Answering.{
  IsAnswering, refuse-IsAnswering, handle-IsAnswering,
}

settle-IsAnswering :
    (id : Value) (outcome : Outcome Value) (s : Server)
    → IsAnswering s
    → IsAnswering (settle id outcome s)
unfolding settle
settle-IsAnswering id outcome s h =
    if_cases IsAnswering (has_active id s.active) _ _
      (λ there. record {
        once = λ i. omega (
          arith,
          h.once i,
          count_results-append i s.sent (result id outcome),
          count_active-drop_at i id s.active there,
        );
        alone = λ i. omega (arith, h.alone i, count_active-drop_at i id s.active there);
        guarded = h.guarded;
      })
      λ gone. h

-- Only the buffer and the input differ.
moved-IsAnswering :
    (s : Server) (pending : Codes) (destroyed : Bool)
    → IsAnswering s
    → IsAnswering (record s { pending = pending; destroyed = destroyed })
moved-IsAnswering s pending destroyed h = record {
  once = h.once;
  alone = h.alone;
  guarded = h.guarded;
}

module _ (parse : Codes → Option Value) where
  on_message-IsAnswering :
      (m : Option Value) (s : Server) → IsAnswering s → IsAnswering (on_message parse m s)
  on_message-IsAnswering none s h = refuse-IsAnswering null 32700 "Parse error" s h
  on_message-IsAnswering (some message) s h = handle-IsAnswering message s h

  on_line-IsAnswering : (l : Codes) (s : Server) → IsAnswering s → IsAnswering (on_line parse l s)
  unfolding on_line
  on_line-IsAnswering [] s h = h
  on_line-IsAnswering (c ∷ cs) s h =
      if_both IsAnswering (ltb 262144 (length (c ∷ cs))) _ _
        (refuse-IsAnswering null 32600 "Request exceeds input limit" s h)
        (on_message-IsAnswering (parse (c ∷ cs)) s h)

  take_lines-IsAnswering :
      (before rest : Codes) (s : Server)
      → IsAnswering s
      → IsAnswering (take_lines parse before rest s)
  unfolding take_lines
  take_lines-IsAnswering before [] s h = moved-IsAnswering s before s.destroyed h
  take_lines-IsAnswering before (c ∷ cs) s h =
      elim_both IsAnswering (nat_eq c 10) _ _
        (take_lines-IsAnswering [] cs (on_line parse before s) (on_line-IsAnswering before s h))
        (take_lines-IsAnswering (before ++ c ∷ []) cs s h)

  on_data-IsAnswering :
      (chunk : Codes) (s : Server) → IsAnswering s → IsAnswering (on_data parse chunk s)
  unfolding on_data
  on_data-IsAnswering chunk s h = if_both IsAnswering s.destroyed _ _ h (
      if_both IsAnswering (ltb 262144 (length after.pending)) _ _
        (moved-IsAnswering _ [] true
          (refuse-IsAnswering null 32600 "Request exceeds input limit" after lines))
        lines)
    where
      after : Server
      after = take_lines parse [] (s.pending ++ chunk) s

      lines : IsAnswering (take_lines parse [] (s.pending ++ chunk) s)
      lines = take_lines-IsAnswering [] (s.pending ++ chunk) s h

  step-IsAnswering : (t : Step) (s : Server) → IsAnswering s → IsAnswering (step parse t s)
  unfolding step abort_calls
  step-IsAnswering (receives chunk) s h = on_data-IsAnswering chunk s h
  step-IsAnswering (settles id outcome) s h = settle-IsAnswering id outcome s h
  step-IsAnswering ends s h = record {
    once = λ i. omega (arith, h.once i, count_active-abort_all i s.active);
    alone = λ i. omega (arith, h.alone i, count_active-abort_all i s.active);
    guarded = h.guarded;
  }

  run-IsAnswering : (ts : List Step) (s : Server) → IsAnswering s → IsAnswering (run parse s ts)
  unfolding run
  run-IsAnswering [] s h = h
  run-IsAnswering (t ∷ ts) s h = run-IsAnswering ts (step parse t s) (step-IsAnswering t s h)

  new-IsAnswering : IsAnswering new
  unfolding new
  new-IsAnswering = record { once = λ i. refl; alone = λ i. omega arith; guarded = λ e. refl }

  -- After any chunks of input, ends of tool calls and ends of the input, in any order, and for
  -- every id: the tool calls that were started are those that run and those that have a result, at
  -- most one of them runs, and none was started if the client has not sent `initialize`.
  pub run-answers_once :
      (ts : List Step)
      → ((i : Value)
          → count_active i (run parse new ts).active + count_results i (run parse new ts).sent
            ≡ count_started i (run parse new ts).started)
        × ((i : Value) → count_active i (run parse new ts).active ≤ 1)
        × ((run parse new ts).initialized ≡ false → (run parse new ts).started ≡ [])
  run-answers_once ts =
      let h = run-IsAnswering ts new new-IsAnswering in (h.once, h.alone, h.guarded)
