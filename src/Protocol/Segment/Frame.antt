-- ===== src/Protocol/Segment/Frame.antt =====
-- An invariant of the log and the number that `emit` keeps is kept by every method.
use codex_official_bridge.Prelude.{ℕ, String, ◌≡◌, refl, Option, none, some, arith}
use codex_official_bridge.Json.{Value}
use codex_official_bridge.Protocol.Error.{Thrown}
use codex_official_bridge.Action.{modify}
use codex_official_bridge.Action.Keeps.{Keeps, keeps_rules}
use codex_official_bridge.Protocol.Segment.{
  Event, Segment, emit, start, add_message, open_message, add_text, text_delta_of, finish_message,
  close_message, complete_message, tool_call, finish, fail, found_or_added, stream_rest, set_phase,
  stream_text, mark_done,
}
use codex_official_bridge.Protocol.Segment.Methods.{
  Method, starts, deltas, completes, calls, finishes, fails, perform,
}

same_log : (s : Segment) → s.emitted ≡ s.emitted
same_log s = refl

same_number : (s : Segment) → s.sequence ≡ s.sequence
same_number s = refl

same_sink : (s : Segment) → s.on_event ≡ s.on_event
same_sink s = refl

module _ (P : Segment → Type 0) (emits : (e : Event) → Keeps P (emit e))
    (framed : (f : Segment → Segment)
      → ((s : Segment) → (f s).emitted ≡ s.emitted)
      → ((s : Segment) → (f s).sequence ≡ s.sequence)
      → ((s : Segment) → (f s).on_event ≡ s.on_event)
      → Keeps P (modify f)) where
  start-Keeps : Keeps P start
  unfolding start
  start-Keeps = search (keeps_rules, emits)

  add_message-Keeps : (i p : Value) → Keeps P (add_message i p)
  unfolding add_message
  add_message-Keeps i p =
      search (keeps_rules, same_log, same_number, same_sink, framed, emits) depth 12

  found_or_added-Keeps : (i p : Value) (o : Option ℕ) → Keeps P (found_or_added i p o)
  found_or_added-Keeps i p none = add_message-Keeps i p
  found_or_added-Keeps i p (some k) = search keeps_rules

  open_message-Keeps : (i p : Value) → Keeps P (open_message i p)
  unfolding open_message
  open_message-Keeps i p = search (keeps_rules, found_or_added-Keeps)

  stream_text-Keeps : (i : ℕ) (d : String) → Keeps P (stream_text i d)
  unfolding stream_text
  stream_text-Keeps i d =
      search (keeps_rules, same_log, same_number, same_sink, framed, emits) depth 12

  mark_done-Keeps : (i : ℕ) → Keeps P (mark_done i)
  unfolding mark_done
  mark_done-Keeps i = search (keeps_rules, same_log, same_number, same_sink, framed, emits) depth 14

  add_text-Keeps : (i : Value) (d : String) → Keeps P (add_text i d)
  unfolding add_text
  add_text-Keeps i d = search (keeps_rules, open_message-Keeps, stream_text-Keeps)

  text_delta_of-Keeps : (i : Value) (d : String) → Keeps P (text_delta_of i d)
  unfolding text_delta_of
  text_delta_of-Keeps i d = search (keeps_rules, add_text-Keeps) depth 12

  finish_message-Keeps : (i : ℕ) → Keeps P (finish_message i)
  unfolding finish_message
  finish_message-Keeps i = search (keeps_rules, mark_done-Keeps)

  stream_rest-Keeps : (i : Value) (r : Option (Option String)) → Keeps P (stream_rest i r)
  stream_rest-Keeps i none = search keeps_rules
  stream_rest-Keeps i (some none) = search keeps_rules
  stream_rest-Keeps i (some (some d)) = text_delta_of-Keeps i d

  set_phase-Keeps : (i : ℕ) (p : Value) → Keeps P (modify (set_phase i p))
  set_phase-Keeps i p =
      framed (set_phase i p) (λ s. ground arith) (λ s. ground arith) (λ s. ground arith)

  close_message-Keeps : (raw : Value) → Keeps P (close_message raw)
  unfolding close_message
  close_message-Keeps raw =
      search
        (keeps_rules, open_message-Keeps, stream_rest-Keeps, set_phase-Keeps, finish_message-Keeps)
        depth 14

  complete_message-Keeps : (raw : Value) → Keeps P (complete_message raw)
  unfolding complete_message
  complete_message-Keeps raw = search (keeps_rules, close_message-Keeps)

  tool_call-Keeps : (c n : String) (args : Value) → Keeps P (tool_call c n args)
  unfolding tool_call
  tool_call-Keeps c n args =
      search (keeps_rules, same_log, same_number, same_sink, framed, emits) depth 24

  finish-Keeps : (usage : Value) → Keeps P (finish usage)
  unfolding finish
  finish-Keeps usage =
      search (keeps_rules, same_log, same_number, same_sink, framed, emits, finish_message-Keeps)
        depth 14

  fail-Keeps : (e : Thrown) → Keeps P (fail e)
  unfolding fail
  fail-Keeps e = search (keeps_rules, same_log, same_number, same_sink, framed, emits) depth 12

  pub perform-Keeps : (m : Method) → Keeps P (perform m)
  unfolding perform
  perform-Keeps starts = start-Keeps
  perform-Keeps (deltas i d) = text_delta_of-Keeps i d
  perform-Keeps (completes raw) = complete_message-Keeps raw
  perform-Keeps (calls c n args) = tool_call-Keeps c n args
  perform-Keeps (finishes usage) = search (keeps_rules, finish-Keeps)
  perform-Keeps (fails e) = fail-Keeps e
