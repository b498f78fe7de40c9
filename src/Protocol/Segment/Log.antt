-- ===== src/Protocol/Segment/Log.antt =====
-- The streamed deltas of an item, its text, and the texts that close it.
use codex_official_bridge.Prelude.{
  ℕ, ◌≤◌, String, ◌≡◌, some, List, [], ◌∷◌, ◌++◌, ◌⊕◌, arith, length, get_elem?, get_elem?-set,
  get_elem?-append, get_elem?-lt, set, nat_eq, length-append, length-set, if◌then◌else◌,
}
use codex_official_bridge.Protocol.Segment.{Event, text_delta, text_done, Message, Item, message}

-- The deltas that were delivered for the output item `i`, joined in their order.
abbrev pub deltas : ℕ → List (ℕ × Event) → String
deltas i [] = ""
deltas i ((k, text_delta id j d) ∷ log) = if nat_eq i j then deltas i log ⊕ d else deltas i log
deltas i ((k, _) ∷ log) = deltas i log

-- Every text that a `response.output_text.done` reports is what was streamed until then.
abbrev pub Truthful : List (ℕ × Event) → Type 0
Truthful [] = Unit
Truthful ((k, text_done id i t) ∷ log) = (t ≡ deltas i log) × Truthful log
Truthful ((k, _) ∷ log) = Truthful log

pub record Matches (output : List Item) (log : List (ℕ × Event)) : Type 0 where
  pub texts : (i : ℕ) (m : Message) → get_elem? output i ≡ some (message m) → m.text ≡ deltas i log
  pub unused : (i : ℕ) → length output ≤ i → deltas i log ≡ ""

-- Another item at an index that is in use, with the text that was streamed.
pub Matches-set :
    (output : List Item) (log : List (ℕ × Event)) (i : ℕ) (v : Item)
    → Matches output log
    → ((m : Message) → v ≡ message m → m.text ≡ deltas i log)
    → Matches (set output i v) log
Matches-set output log i v h same = record {
  texts = λ j m e. ground (arith, get_elem?-set output i j v, h.texts j m, same m);
  unused = λ j b. h.unused j (omega (arith, length-set output i v));
}

pub Matches-delta :
    (output : List Item) (log : List (ℕ × Event)) (i k : ℕ) (id d : String) (m m' : Message)
    → Matches output log
    → get_elem? output i ≡ some (message m)
    → m'.text ≡ m.text ⊕ d
    → Matches (set output i (message m')) ((k, text_delta id i d) ∷ log)
Matches-delta output log i k id d m m' h e t = record {
  texts = λ j n g. ground (arith, get_elem?-set output i j (message m'), h.texts j n, h.texts i m);
  unused = λ j b.
      ground
        (arith, h.unused j, length-set output i (message m'), get_elem?-lt output i (message m));
}

pub Matches-push :
    (output : List Item) (log : List (ℕ × Event)) (v : Item)
    → Matches output log
    → ((m : Message) → v ≡ message m → m.text ≡ "")
    → Matches (output ++ v ∷ []) log
Matches-push output log v h empty = record {
  texts = λ j m g. ground (arith, get_elem?-append output v j, h.texts j m, empty m, h.unused j);
  unused = λ j b. h.unused j (omega (arith, length-append output (v ∷ [])));
}

-- Other events leave the deltas alone.
pub Matches-log :
    (output : List Item) (log log' : List (ℕ × Event))
    → Matches output log
    → ((i : ℕ) → deltas i log' ≡ deltas i log)
    → Matches output log'
Matches-log output log log' h same = record {
  texts = λ i m e. rw (same i) (h.texts i m e);
  unused = λ i b. rw (same i) (h.unused i b);
}
