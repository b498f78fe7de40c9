-- ===== src/Protocol/Segment/Faithful.antt =====
-- Where `onEvent` never throws, what a client has read of an item is what the response says.
use codex_official_bridge.Prelude.{
  sym, ap, ◌∙◌, ℕ, String, ◌≡◌, refl, inl, inr, Option, none, some, List, [], ◌∷◌, ◌++◌, ◌==◌,
  arith, length, get_elem?, get_elem?-set, get_elem?-append, get_elem?-lt, set, All, All-append,
  All-map, Bool-cases,
}
use codex_official_bridge.Json.{Value, undefined, strict_eq}
use codex_official_bridge.Action.{Action, ◌>>=◌}
use codex_official_bridge.Action.Triple.{
  Triple, Triple-bind, Triple-if, Triple-gets, Triple-post, Triple-reads, Triple-pure,
}
use codex_official_bridge.Protocol.Segment.{
  Event, Message, Item, message, Segment, emit, add_message, found_or_added, open_message,
  find_entry, add_text, text_delta_of, finish_message, stream_rest, message_at, as_message,
  stream_text, mark_done, is_done,
}
use codex_official_bridge.Protocol.Segment.Log.{
  Truthful, Matches, Matches-set, Matches-delta, Matches-push, Matches-log,
}

abbrev pub IsMessage : List Item → ℕ → Type 0
IsMessage output i = get_elem? output i ≡ some (message (as_message (get_elem? output i)))

pub record IsFaithful (s : Segment) : Type 0 where
  pub quiet : (log : List (ℕ × Event)) (e : ℕ × Event) → s.on_event log e ≡ none
  pub fits : Matches s.response.output s.emitted
  pub honest : Truthful s.emitted
  pub entries : All (λ e. IsMessage s.response.output e.1) s.messages

-- With other entries to come.
pub record Holding (es : List (Value × ℕ)) (s : Segment) : Type 0 where
  pub good : IsFaithful s
  pub later : All (λ e. IsMessage s.response.output e.1) es

-- With an entry at hand, and other entries to come.
pub record HasMessage (es : List (Value × ℕ)) (i : ℕ) (s : Segment) : Type 0 where
  pub good : IsFaithful s
  pub here : IsMessage s.response.output i
  pub later : All (λ e. IsMessage s.response.output e.1) es

pub IsMessage-set :
    (output : List Item) (i : ℕ) (m : Message) (j : ℕ)
    → IsMessage output j
    → IsMessage (set output i (message m)) j
IsMessage-set output i m j e = ground (arith, get_elem?-set output i j (message m))

pub IsMessage-push :
    (output : List Item) (v : Item) (j : ℕ) → IsMessage output j → IsMessage (output ++ v ∷ []) j
IsMessage-push output v j e = ground (
  arith,
  get_elem?-append output v j,
  get_elem?-lt output j (message (as_message (get_elem? output j))),
)

IsMessage-last :
    (output : List Item) (m : Message) → IsMessage (output ++ message m ∷ []) (length output)
IsMessage-last output m = ground (arith, get_elem?-append output (message m) (length output))

add_message-HasMessage :
    (es : List (Value × ℕ)) (i p : Value)
    → Triple (Holding es) (add_message i p) (HasMessage es) IsFaithful
unfolding add_message emit ◌>>=◌
add_message-HasMessage es i p = record {
  at = λ s h. simp (h.good.quiet) (record {
    good = record {
      quiet = h.good.quiet;
      fits =
          Matches-log _ s.emitted _
            (Matches-push s.response.output s.emitted _ h.good.fits (λ m e. ground arith))
            (λ i. refl);
      honest = h.good.honest;
      entries =
          All-append _ s.messages _
            (All-map s.messages (λ e. IsMessage-push s.response.output _ e.1) h.good.entries)
            (IsMessage-last s.response.output _, tt);
    };
    here = IsMessage-last s.response.output _;
    later = All-map es (λ e. IsMessage-push s.response.output _ e.1) h.later;
  });
}

find_entry-IsMessage :
    (output : List Item) (entries : List (Value × ℕ)) (key : Value) (k : ℕ)
    → All (λ e. IsMessage output e.1) entries
    → find_entry entries key ≡ some k
    → IsMessage output k
unfolding find_entry
find_entry-IsMessage output [] key k h e = cc
find_entry-IsMessage output ((j, i) ∷ rest) key k (m, h) e = elim (Bool-cases (strict_eq j key)) [
  | inl hit ↦ cc (m, rw hit at e)
  | inr miss ↦ find_entry-IsMessage output rest key k h (rw miss at e)
]

found_or_added-HasMessage :
    (es : List (Value × ℕ)) (i p : Value) (o : Option ℕ)
    → Triple
        (λ s. Holding es s × (o ≡ find_entry s.messages i))
        (found_or_added i p o)
        (HasMessage es)
        IsFaithful
found_or_added-HasMessage es i p none = record {
  at = λ s h. (add_message-HasMessage es i p).at s h.0;
}
found_or_added-HasMessage es i p (some k) = record {
  at = λ s h. record {
    good = h.0.good;
    here = find_entry-IsMessage s.response.output s.messages i k h.0.good.entries (sym h.1);
    later = h.0.later;
  };
}

pub open_message-HasMessage :
    (es : List (Value × ℕ)) (i p : Value)
    → Triple (Holding es) (open_message i p) (HasMessage es) IsFaithful
unfolding open_message
open_message-HasMessage es i p =
    Triple-bind _ _ _ _ (Triple-gets _) (found_or_added-HasMessage es i p)

stream_text-HasMessage :
    (es : List (Value × ℕ)) (i : ℕ) (d : String)
    → Triple (HasMessage es i) (stream_text i d) (λ _. HasMessage es i) IsFaithful
unfolding stream_text emit ◌>>=◌
stream_text-HasMessage es i d = record {
  at = λ s h.
      rw (h.good.quiet _ _, emit)
        (record {
          good = record {
            quiet = h.good.quiet;
            fits =
                Matches-delta s.response.output s.emitted i _ _ d (message_at i s) _ h.good.fits
                  h.here refl;
            honest = h.good.honest;
            entries =
                All-map s.messages (λ e. IsMessage-set s.response.output i _ e.1) h.good.entries;
          };
          here = IsMessage-set s.response.output i _ i h.here;
          later = All-map es (λ e. IsMessage-set s.response.output i _ e.1) h.later;
        });
}

message-set :
    (output : List Item) (i : ℕ) (m : Message)
    → IsMessage output i
    → as_message (get_elem? (set output i (message m)) i) ≡ m
message-set output i m e = ground (arith, get_elem?-set output i i (message m))

mark_done-HasMessage :
    (es : List (Value × ℕ)) (i : ℕ)
    → Triple (HasMessage es i) (mark_done i) (λ _. HasMessage es i) IsFaithful
unfolding mark_done emit ◌>>=◌
mark_done-HasMessage es i = record {
  at = λ s h. simp (h.good.quiet) (record {
    good = record {
      quiet = h.good.quiet;
      fits =
          Matches-log _ s.emitted _
            (Matches-set s.response.output s.emitted i _ h.good.fits
              (λ m e. ground (arith, h.good.fits.texts i (message_at i s))))
            (λ i. refl);
      honest = (
        ap (λ (m : Message). m.text) (message-set s.response.output i _ h.here)
            ∙ h.good.fits.texts i (message_at i s) h.here,
        h.good.honest,
      );
      entries = All-map s.messages (λ e. IsMessage-set s.response.output i _ e.1) h.good.entries;
    };
    here = IsMessage-set s.response.output i _ i h.here;
    later = All-map es (λ e. IsMessage-set s.response.output i _ e.1) h.later;
  });
}

pub finish_message-HasMessage :
    (es : List (Value × ℕ)) (i : ℕ)
    → Triple (HasMessage es i) (finish_message i) (λ _. HasMessage es i) IsFaithful
unfolding finish_message
finish_message-HasMessage es i =
    Triple-bind (λ _. HasMessage es i) _ _ _ (Triple-reads (is_done i))
      λ done. Triple-if _ done _ _ (λ _. Triple-pure tt) (λ _. mark_done-HasMessage es i)

pub still-Holding :
    (es : List (Value × ℕ)) (i : ℕ) (m : Action Segment (Unit {0}))
    → Triple (HasMessage es i) m (λ _. HasMessage es i) IsFaithful
    → Triple (HasMessage es i) m (λ _. Holding es) IsFaithful
still-Holding es i m k =
    Triple-post (λ _. HasMessage es i) _ m (λ _ s h. record { good = h.good; later = h.later }) k

module _ (es : List (Value × ℕ)) where
  add_text-Holding :
      (i : Value) (d : String) → Triple (Holding es) (add_text i d) (λ _. Holding es) IsFaithful
  unfolding add_text
  add_text-Holding i d =
      Triple-bind (HasMessage es) _ _ _ (open_message-HasMessage es i undefined) λ k.
        Triple-bind (λ _. HasMessage es k) _ _ _ (Triple-reads (is_done k))
          λ done.
            Triple-if _ done _ _ (λ _. record { at = λ s h. h.good })
              (λ _. still-Holding es k _ (stream_text-HasMessage es k d))

  pub text_delta_of-Holding :
      (i : Value) (d : String)
      → Triple (Holding es) (text_delta_of i d) (λ _. Holding es) IsFaithful
  unfolding text_delta_of
  text_delta_of-Holding i d =
      Triple-bind (λ _. Holding es) _ _ _ (Triple-reads _)
        λ finished.
          Triple-if _ finished _ _ (λ _. Triple-pure tt)
            (λ _. Triple-if _ (d == "") _ _ (λ _. Triple-pure tt) (λ _. add_text-Holding i d))

  pub stream_rest-Holding :
      (i : Value) (r : Option (Option String))
      → Triple (Holding es) (stream_rest i r) (λ _. Holding es) IsFaithful
  stream_rest-Holding i none = record { at = λ s h. h.good }
  stream_rest-Holding i (some none) = record { at = λ s h. h.good }
  stream_rest-Holding i (some (some d)) = text_delta_of-Holding i d
