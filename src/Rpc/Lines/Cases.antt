-- ===== src/Rpc/Lines/Cases.antt =====
-- The four things that reading a line can do.
use codex_official_bridge.Prelude.{ℕ, ◌≡◌, true, inl, inr, List, Bool-cases, if_both}
use codex_official_bridge.Json.{Value, num, str, obj, Fields, nat, decimal, find_field, has_field}
use codex_official_bridge.Rpc.{Rpc, RpcError, Event, Outcome, fail, settle}
use codex_official_bridge.Rpc.Lines.{
  Line, blank, broken, value, on_call, on_response, on_message, on_line, is_pending, pending_id,
  settle_found, on_decoded, is_bad_response, is_bad_error, outcome_of,
}

module _ (listener : Event → Rpc → Rpc) (P : Rpc → Type 0) (s : Rpc)
    (failing : (e : RpcError) → P (fail listener e s)) (emitting : (e : Event) → P (listener e s))
    (settling : (id : ℕ) (o : Outcome) → is_pending s.pending id ≡ true → P (settle id o s))
    (staying : P s) where
  on_call_cases : (fs : Fields) (v : Value) → P (on_call listener fs v s)
  unfolding on_call
  on_call_cases fs (str m) = if_both P _ _ _ (failing _) (if_both P _ _ _ (emitting _) (emitting _))
  on_call_cases fs _ = failing _

  pending_cases : (v : Value) (o : Outcome) → P (settle_found (pending_id s.pending v) o s)
  pending_cases (num (nat n)) o = elim (Bool-cases (is_pending s.pending n)) [
    | inl there ↦ rw there (settling n o there)
    | inr gone ↦ rw gone staying
  ]
  pending_cases (num (decimal t)) o = staying
  pending_cases _ o = staying

  on_response_cases : (fs : Fields) → P (on_response listener fs s)
  unfolding on_response
  on_response_cases fs = if_both P (is_bad_response fs) _ _ (failing _) (
      if_both P (is_bad_error fs) _ _ (failing _)
        (pending_cases (find_field fs "id") (outcome_of fs)))

  on_message_cases : (v : Value) → P (on_message listener v s)
  unfolding on_message
  on_message_cases (obj fs) =
      if_both P (has_field fs "method") _ _ (on_call_cases fs (find_field fs "method"))
        (on_response_cases fs)
  on_message_cases _ = failing _

  -- Reading a line fails the client, emits one event, settles one request that is pending, or
  -- changes nothing.
  pub on_line_cases :
      (decode : List ℕ → Line) (bytes : List ℕ) → P (on_line listener decode bytes s)
  unfolding on_line
  on_line_cases decode bytes = go (decode bytes)
    where
      go : (l : Line) → P (on_decoded listener l s)
      go blank = staying
      go broken = failing _
      go (value v) = on_message_cases v
