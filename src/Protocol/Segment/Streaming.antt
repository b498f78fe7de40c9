-- ===== src/Protocol/Segment/Streaming.antt =====
-- Where `onEvent` never throws, what a client has read of an item is what the response says.
use codex_official_bridge.Prelude.{
  ℕ, String, ◌≡◌, refl, inl, inr, Option, none, some, List, [], ◌∷◌, ◌++◌, arith, length, get_elem?,
  get_elem?-set, get_elem?-append, get_elem?-lt, set, All-map, Bool-cases,
}
use codex_official_bridge.Json.{Value, undefined, is_truthy}
use codex_official_bridge.Protocol.Error.{Thrown, Result, ok, throw}
use codex_official_bridge.Action.{modify, ◌>>=◌, for_each}
use codex_official_bridge.Action.Keeps.{Keeps}
use codex_official_bridge.Protocol.Segment.Methods.{
  Method, starts, completes, calls, finishes, fails, perform, run, run_induction,
}
use codex_official_bridge.Action.Triple.{
  Triple, Post, Triple-bind, Triple-if, Triple-pre, Triple-reads, Triple-pure, Triple-for_each,
}
use codex_official_bridge.Protocol.Segment.{
  Event, created, began, ended, broke, break_response, close_response, Message, Item, message,
  function_call, Call, Segment, new, emit, finish_message, close_message, complete_message,
  tool_call, finish, fail, start, set_phase, message_at, as_message, is_done,
}
use codex_official_bridge.Protocol.Segment.Faithful.{
  IsMessage, IsFaithful, Holding, HasMessage, IsMessage-set, open_message-HasMessage,
  finish_message-HasMessage, still-Holding, stream_rest-Holding, text_delta_of-Holding,
}
use codex_official_bridge.Protocol.Segment.Log.{
  deltas, Truthful, Matches, Matches-set, Matches-push, Matches-log,
}

set_phase-HasMessage :
    (i : ℕ) (p : Value)
    → Triple
        (Holding ((undefined, i) ∷ []))
        (modify (set_phase i p))
        (λ _. HasMessage [] i)
        IsFaithful
set_phase-HasMessage i p = elim (Bool-cases (is_truthy p)) [
  | inl kept ↦ record {
    at = λ s h.
        rw (kept, set_phase)
          (record {
            good = record {
              quiet = h.good.quiet;
              fits =
                  Matches-set s.response.output s.emitted i _ h.good.fits
                    (λ m e. ground (arith, h.good.fits.texts i (message_at i s), h.later.0));
              honest = h.good.honest;
              entries =
                  All-map s.messages (λ e. IsMessage-set s.response.output i _ e.1) h.good.entries;
            };
            here = IsMessage-set s.response.output i _ i h.later.0;
            later = tt;
          });
  }
  | inr absent ↦ record {
    at = λ s h. rw (absent, set_phase) (record { good = h.good; here = h.later.0; later = tt });
  }
]

close_message-Holding :
    (raw : Value) → Triple (Holding []) (close_message raw) (λ _. Holding []) IsFaithful
unfolding close_message
close_message-Holding raw = Triple-bind (HasMessage []) _ _ _ (open_message-HasMessage [] _ _) λ k.
    Triple-bind (λ _. HasMessage [] k) _ _ _ (Triple-reads (is_done k))
      λ done.
        Triple-if _ done _ _ (λ _. still-Holding [] k _ (Triple-pure tt))
          (λ _.
            Triple-bind (λ _. HasMessage [] k) _ _ _ (Triple-reads _)
              λ current.
                Triple-bind (λ _. Holding ((undefined, k) ∷ [])) _ _ _
                  (Triple-pre _ (Holding ((undefined, k) ∷ [])) _ _
                    (λ s h. record { good = h.good; later = (h.here, tt) })
                    (stream_rest-Holding ((undefined, k) ∷ []) _ _))
                  λ _.
                    Triple-bind (λ _. HasMessage [] k) _ _ _ (set_phase-HasMessage k _)
                      λ _. still-Holding [] k _ (finish_message-HasMessage [] k))

complete_message-Holding :
    (raw : Value) → Triple (Holding []) (complete_message raw) (λ _. Holding []) IsFaithful
unfolding complete_message
complete_message-Holding raw =
    Triple-bind (λ _. Holding []) _ _ _ (Triple-reads _)
      λ finished. Triple-if _ finished _ _ (λ _. Triple-pure tt) (λ _. close_message-Holding raw)

IsMessage-call :
    (output : List Item) (a b c : Call) (j : ℕ)
    → IsMessage output j
    → IsMessage
        (set
          (set (output ++ function_call a ∷ []) (length output) (function_call b))
          (length output)
          (function_call c))
        j
IsMessage-call output a b c j h = ground (
  arith,
  get_elem?-set (set (output ++ function_call a ∷ []) (length output) (function_call b))
      (length output) j (function_call c),
  get_elem?-set (output ++ function_call a ∷ []) (length output) j (function_call b),
  get_elem?-append output (function_call a) j,
  get_elem?-lt output j (message (as_message (get_elem? output j))),
)

Matches-call :
    (output : List Item) (log : List (ℕ × Event)) (a b c : Call)
    → Matches output log
    → Matches
        (set
          (set (output ++ function_call a ∷ []) (length output) (function_call b))
          (length output)
          (function_call c))
        log
Matches-call output log a b c h =
    Matches-set _ log _ _
      (Matches-set _ log _ _ (Matches-push output log _ h (λ m e. cc)) (λ m e. cc)) (λ m e. cc)

tool_call-Holding :
    (id name : String) (args : Value)
    → Triple (Holding []) (tool_call id name args) (λ _. Holding []) IsFaithful
unfolding tool_call emit ◌>>=◌
tool_call-Holding id name args = record {
  at = λ s h.
      simp (h.good.quiet, emit)
        (record {
          good = record {
            quiet = h.good.quiet;
            fits =
                Matches-log _ s.emitted _
                  (Matches-call s.response.output s.emitted _ _ _ h.good.fits) (λ i. refl);
            honest = h.good.honest;
            entries =
                All-map s.messages (λ e. IsMessage-call s.response.output _ _ _ e.1) h.good.entries;
          };
          later = tt;
        });
}

-- An event that reports no text.
report-Holding :
    (e : Event)
    → ((n i : ℕ) (log : List (ℕ × Event)) → deltas i ((n, e) ∷ log) ≡ deltas i log)
    → ((n : ℕ) (log : List (ℕ × Event)) → Truthful log → Truthful ((n, e) ∷ log))
    → Triple (Holding []) (emit e) (λ _. Holding []) IsFaithful
unfolding emit
report-Holding e plain truthful = record {
  at = λ s h.
      rw (h.good.quiet _ _, emit)
        (record {
          good = record {
            quiet = h.good.quiet;
            fits =
                Matches-log s.response.output s.emitted _ h.good.fits
                  (λ i. plain s.sequence i s.emitted);
            honest = truthful s.sequence s.emitted h.good.honest;
            entries = h.good.entries;
          };
          later = tt;
        });
}

start-Holding : Triple (Holding []) start (λ _. Holding []) IsFaithful
unfolding start
start-Holding =
    Triple-bind (λ _. Holding []) _ _ _ (Triple-reads _)
      λ r.
        Triple-bind (λ _. Holding []) _ _ _
          (report-Holding (created r) (λ n i log. refl) (λ n log h. h))
          λ _. report-Holding (began r) (λ n i log. refl) (λ n log h. h)

-- A change of what is neither the log, the output, the entries nor `onEvent`.
modify-Holding :
    (f : Segment → Segment)
    → ((s : Segment) → IsFaithful s → IsFaithful (f s))
    → Triple (Holding []) (modify f) (λ _. Holding []) IsFaithful
modify-Holding f k = record { at = λ s h. record { good = k s h.good; later = tt } }

fail-Holding : (e : Thrown) → Triple (Holding []) (fail e) (λ _. Holding []) IsFaithful
unfolding fail
fail-Holding e =
    Triple-bind (λ _. Holding []) _ _ _ (Triple-reads _)
      λ finished.
        Triple-if _ finished _ _ (λ _. Triple-pure tt)
          λ _.
            Triple-bind (λ _. Holding []) _ _ _
              (modify-Holding (break_response e) (λ s h. record {
                quiet = h.quiet;
                fits = h.fits;
                honest = h.honest;
                entries = h.entries;
              }))
              λ _.
                Triple-bind (λ _. Holding []) _ _ _ (Triple-reads _)
                  λ r. report-Holding (broke r) (λ n i log. refl) (λ n log h. h)

finish_entries-Holding :
    (entries : List (Value × ℕ))
    → Triple
        (Holding entries)
        (for_each (λ e. finish_message e.1) entries)
        (λ _. Holding [])
        IsFaithful
finish_entries-Holding entries =
    Triple-for_each Holding (λ e. finish_message e.1) entries
      λ e rest.
        Triple-pre _ (HasMessage rest e.1) _ _
          (λ s h. record { good = h.good; here = h.later.0; later = h.later.1 })
          (still-Holding rest e.1 _ (finish_message-HasMessage rest e.1))

finish-Holding : (usage : Value) → Triple (Holding []) (finish usage) (λ _. Holding []) IsFaithful
unfolding finish
finish-Holding usage =
    Triple-bind (λ _. Holding []) _ _ _ (Triple-reads _)
      λ finished.
        Triple-if _ finished _ _ (λ _. Triple-reads _)
          λ _.
            Triple-bind (λ entries s. Holding entries s) _ _ _
              (record { at = λ s h. record { good = h.good; later = h.good.entries } })
              λ entries.
                Triple-bind (λ _. Holding []) _ _ _ (finish_entries-Holding entries)
                  λ _.
                    Triple-bind (λ _. Holding []) _ _ _
                      (modify-Holding (close_response usage) (λ s h. record {
                        quiet = h.quiet;
                        fits = h.fits;
                        honest = h.honest;
                        entries = h.entries;
                      }))
                      λ _.
                        Triple-bind (λ _. Holding []) _ _ _ (Triple-reads _)
                          λ r.
                            Triple-bind (λ _. Holding []) _ _ _
                              (report-Holding (ended r) (λ n i log. refl) (λ n log h. h))
                              λ _. Triple-pure r

perform-Holding : (m : Method) → Triple (Holding []) (perform m) (λ _. Holding []) IsFaithful
unfolding perform
perform-Holding starts = start-Holding
perform-Holding (Method.deltas i d) = text_delta_of-Holding [] i d
perform-Holding (completes raw) = complete_message-Holding raw
perform-Holding (calls c n args) = tool_call-Holding c n args
perform-Holding (finishes usage) =
    Triple-bind (λ _. Holding []) _ _ _ (finish-Holding usage) (λ _. Triple-pure tt)
perform-Holding (fails e) = fail-Holding e

after-IsFaithful :
    (r : Result Unit × Segment) → Post (λ _. Holding []) IsFaithful r → IsFaithful r.1
after-IsFaithful (ok a, s) h = h.good
after-IsFaithful (throw e, s) h = h

perform-IsFaithful : (m : Method) → Keeps IsFaithful (perform m)
perform-IsFaithful m = record {
  at = λ s h.
      after-IsFaithful (perform m s) ((perform-Holding m).at s (record { good = h; later = tt }));
}

-- Where `onEvent` never throws: whatever methods are called on a new segment, in whatever order,
-- the text of each message of the response is the deltas delivered for it, joined, and each
-- `response.output_text.done` reported exactly the deltas delivered before it.
pub streamed_text :
    (model : Option String) (previous_id : Option String)
    (on_event : List (ℕ × Event) → ℕ × Event → Option Thrown) (uuid : ℕ → String) (now : ℕ)
    (ms : List Method)
    → ((log : List (ℕ × Event)) (e : ℕ × Event) → on_event log e ≡ none)
    → let s = run (new model previous_id on_event uuid now) ms in
      ((i : ℕ) (m : Message)
        → get_elem? s.response.output i ≡ some (message m)
        → m.text ≡ deltas i s.emitted)
      × Truthful s.emitted
unfolding new
streamed_text model previous_id on_event uuid now ms quiet =
    let h =
      run_induction IsFaithful perform-IsFaithful (new model previous_id on_event uuid now) ms
        (record {
          quiet = quiet;
          fits = record { texts = λ i m e. cc; unused = λ i b. refl };
          honest = tt;
          entries = tt;
        }) in
    (h.fits.texts, h.honest)
