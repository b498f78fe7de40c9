-- ===== src/Image/Stdio/Bounds.antt =====
-- scripts/desktop-image-mcp.mjs, `serveStdio`: what is kept of the input between two chunks.
use codex_official_bridge.Prelude.{
  ◌≤◌, ◌≡◌, false, Option, List, [], ◌∷◌, ◌++◌, arith, ltb, nat_eq, length, All, All-append,
  if_both, if_cases, elim_cases,
}
use codex_official_bridge.Json.{Value}
use codex_official_bridge.Codes.{Codes}
use codex_official_bridge.Image.Stdio.{
  Server, new, has_active, settle, abort_calls, on_line, take_lines, on_data, Step, receives,
  settles, ends, step, run,
}

-- One line without its end, within the limit.
abbrev pub IsPart : Codes → Type 0
IsPart bytes = All (λ c. nat_eq c 10 ≡ false) bytes × (length bytes ≤ 262144)

abbrev IsTidy : Server → Type 0
IsTidy s = IsPart s.pending

module _ (parse : Codes → Option Value) where
  take_lines-All :
      (before rest : Codes) (s : Server)
      → All (λ c. nat_eq c 10 ≡ false) before
      → All (λ c. nat_eq c 10 ≡ false) (take_lines parse before rest s).pending
  unfolding take_lines
  take_lines-All before [] s h = h
  take_lines-All before (c ∷ cs) s h =
      elim_cases (λ (t : Server). All (λ d. nat_eq d 10 ≡ false) t.pending) (nat_eq c 10) _ _
        (λ feed. take_lines-All [] cs (on_line parse before s) tt)
        λ other. take_lines-All (before ++ c ∷ []) cs s (All-append _ before (c ∷ []) h (other, tt))

  on_data-IsTidy : (chunk : Codes) (s : Server) → IsTidy s → IsTidy (on_data parse chunk s)
  unfolding on_data
  on_data-IsTidy chunk s h = if_both IsTidy s.destroyed _ _ h (
      if_cases IsTidy (ltb 262144 (length (take_lines parse [] (s.pending ++ chunk) s).pending)) _ _
        (λ long. (tt, omega arith))
        λ short. (take_lines-All [] (s.pending ++ chunk) s tt, ground (arith, short)))

  step-IsTidy : (t : Step) (s : Server) → IsTidy s → IsTidy (step parse t s)
  unfolding step settle abort_calls
  step-IsTidy (receives chunk) s h = on_data-IsTidy chunk s h
  step-IsTidy (settles id outcome) s h = if_both IsTidy (has_active id s.active) _ _ h h
  step-IsTidy ends s h = h

  run-IsTidy : (ts : List Step) (s : Server) → IsTidy s → IsTidy (run parse s ts)
  unfolding run
  run-IsTidy [] s h = h
  run-IsTidy (t ∷ ts) s h = run-IsTidy ts (step parse t s) (step-IsTidy t s h)

  -- After any steps of the server, the input that is kept has no line feed and at most 262144
  -- bytes.
  pub run-IsPart : (ts : List Step) → IsPart (run parse new ts).pending
  unfolding new
  run-IsPart ts = run-IsTidy ts new (tt, omega arith)
