-- ===== src/WebSocket/Session/Log.antt =====
-- scripts/verify-websocket.mjs, `openWebSocket`: how often a promise ended, and the events in
-- their order.
use codex_official_bridge.Prelude.{
  ℕ, ◌+◌, ◌≡◌, refl, ap, sym, subst, ◌∙◌, Bool, true, List, [], ◌∷◌, ◌++◌, append-nil, append_assoc,
  nat_eq, if◌then◌else◌, arith,
}
use codex_official_bridge.WebSocket.Session.{
  Event, Output, resolved, rejected, Session, remove, contains,
}

-- How often an item is among some, and how often its promise has ended.
abbrev pub once_if : Bool → ℕ
once_if b = if b then 1 else 0

abbrev pub count : ℕ → List ℕ → ℕ
count i [] = 0
count i (w ∷ rest) = once_if (nat_eq w i) + count i rest

abbrev pub ended_by : ℕ → Output → ℕ
ended_by i (resolved id e) = once_if (nat_eq id i)
ended_by i (rejected id reason) = once_if (nat_eq id i)
ended_by i _ = 0

abbrev pub count_ended : ℕ → List Output → ℕ
count_ended i [] = 0
count_ended i (o ∷ rest) = ended_by i o + count_ended i rest

-- The events that the promises ended with, and those with the events that still wait.
abbrev pub handed_by : Output → List Event
handed_by (resolved id e) = e ∷ []
handed_by _ = []

abbrev pub handed : List Output → List Event
handed [] = []
handed (o ∷ rest) = handed_by o ++ handed rest

abbrev pub events : Session → List Event
events s = handed s.log ++ s.queue

pub count-append :
    (i : ℕ) (xs : List ℕ) (w : ℕ) → count i (xs ++ w ∷ []) ≡ count i xs + once_if (nat_eq w i)
count-append i [] w = omega arith
count-append i (x ∷ xs) w = omega (arith, count-append i xs w)

pub count_ended-append :
    (i : ℕ) (log : List Output) (o : Output)
    → count_ended i (log ++ o ∷ []) ≡ count_ended i log + ended_by i o
count_ended-append i [] o = omega arith
count_ended-append i (x ∷ log) o = omega (arith, count_ended-append i log o)

pub handed-append :
    (log : List Output) (o : Output) → handed (log ++ o ∷ []) ≡ handed log ++ handed_by o
handed-append [] o = append-nil (handed_by o)
handed-append (x ∷ log) o =
    ap (λ rest. handed_by x ++ rest) (handed-append log o)
    ∙ sym (append_assoc (handed_by x) (handed log) (handed_by o))

pub remove-head : (w : ℕ) (rest : List ℕ) → remove w (w ∷ rest) ≡ rest
unfolding remove
remove-head w rest = ground arith

pub count-remove :
    (i id : ℕ) (xs : List ℕ)
    → contains id xs ≡ true
    → count i xs ≡ count i (remove id xs) + once_if (nat_eq id i)
unfolding remove contains
count-remove i id [] h = cc
count-remove i id (w ∷ rest) h = ground (arith, h, count-remove i id rest)

pub remove-nil : (id : ℕ) (xs : List ℕ) → xs ≡ [] → remove id xs ≡ []
unfolding remove
remove-nil id xs e = subst (λ ws. remove id ws ≡ []) (sym e) refl

pub handed-quiet :
    (log : List Output) (o : Output) → handed_by o ≡ [] → handed (log ++ o ∷ []) ≡ handed log
handed-quiet log o none_handed =
    handed-append log o ∙ ap (λ xs. handed log ++ xs) none_handed ∙ append-nil (handed log)
