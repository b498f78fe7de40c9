-- ===== src/Rpc/Settlement.antt =====
-- Every request that was given an id is settled exactly once, or is still pending.
use codex_official_bridge.Prelude.{
  ℕ, ◌+◌, ◌≤◌, String, ◌≡◌, refl, sym, ◌∙◌, true, false, not, ◌&&◌, ◌||◌, inl, inr, List, [], ◌∷◌,
  ◌++◌, arith, ltb, leb, nat_eq, Bool-cases, if◌then◌else◌,
}
use codex_official_bridge.Json.{Value}
use codex_official_bridge.Rpc.{
  Rpc, RpcError, Outcome, Pending, Message, shut, stop_child, reject_all, remove, settle, send,
  is_writable, request, request_now, time_out, rejected, with_entry, after_send,
}
use codex_official_bridge.Rpc.Lines.{is_pending}
use codex_official_bridge.Rpc.Steps.{after}

-- How often an id is pending, and how often its promise has ended.
abbrev pub count_pending : ℕ → List Pending → ℕ
count_pending i [] = 0
count_pending i (p ∷ ps) = (if nat_eq p.id i then 1 else 0) + count_pending i ps

abbrev pub count_settled : ℕ → List (ℕ × Outcome) → ℕ
count_settled i [] = 0
count_settled i ((j, o) ∷ log) = (if nat_eq j i then 1 else 0) + count_settled i log

-- The ids that were given out are 1, …, next - 1.
abbrev pub issued : ℕ → ℕ → ℕ
issued next i = if leb 1 i && ltb i next then 1 else 0

pub record IsSettling (s : Rpc) : Type 0 where
  pub once : (i : ℕ) → count_pending i s.pending + count_settled i s.settled ≡ issued s.next_id i
  pub none_left : s.closed ≡ true → s.pending ≡ []
  pub positive : 1 ≤ s.next_id

count_pending-remove :
    (i j : ℕ) (ps : List Pending)
    → count_pending i (remove j ps) ≡ (if nat_eq j i then 0 else count_pending i ps)
unfolding remove
count_pending-remove i j [] = ground arith
count_pending-remove i j (p ∷ ps) = ground (arith, count_pending-remove i j ps)

count_pending-append :
    (i : ℕ) (ps : List Pending) (p : Pending)
    → count_pending i (ps ++ p ∷ []) ≡ count_pending i ps + (if nat_eq p.id i then 1 else 0)
count_pending-append i [] p = omega arith
count_pending-append i (q ∷ ps) p = omega (arith, count_pending-append i ps p)

is_pending-count : (i : ℕ) (ps : List Pending) → is_pending ps i ≡ true → 1 ≤ count_pending i ps
unfolding is_pending
is_pending-count i [] h = cc
is_pending-count i (p ∷ ps) h = ground (arith, is_pending-count i ps)

count_settled-reject_all :
    (i : ℕ) (e : RpcError) (ps : List Pending) (log : List (ℕ × Outcome))
    → count_settled i (reject_all e ps log) ≡ count_pending i ps + count_settled i log
unfolding reject_all
count_settled-reject_all i e [] log = omega arith
count_settled-reject_all i e (p ∷ ps) log =
    omega (arith, count_settled-reject_all i e ps ((p.id, rejected e) ∷ log))

issued-le : (next i : ℕ) → issued next i ≤ 1
issued-le next i = ground arith

pub settle-IsSettling :
    (id : ℕ) (o : Outcome) (s : Rpc)
    → is_pending s.pending id ≡ true
    → IsSettling s
    → IsSettling (settle id o s)
unfolding remove
settle-IsSettling id o s there h = record {
  once = λ i. ground (
    arith,
    h.once i,
    h.once id,
    count_pending-remove i id s.pending,
    is_pending-count id s.pending,
    issued-le s.next_id id,
  );
  none_left = λ closed. rw (h.none_left closed, remove);
  positive = h.positive;
}

pub shut-IsSettling : (e : RpcError) (s : Rpc) → IsSettling s → IsSettling (shut e s)
shut-IsSettling e s h = record {
  once = λ i. omega (arith, count_settled-reject_all i e s.pending s.settled, h.once i);
  none_left = λ closed. refl;
  positive = h.positive;
}

-- What the invariant speaks of is as before.
pub same-IsSettling :
    (s t : Rpc)
    → t.pending ≡ s.pending
    → t.settled ≡ s.settled
    → t.next_id ≡ s.next_id
    → t.closed ≡ s.closed
    → IsSettling s
    → IsSettling t
same-IsSettling s t p l n c h = record {
  once = λ i. rw (p, l, n) (h.once i);
  none_left = λ closed. p ∙ h.none_left (sym c ∙ closed);
  positive = rw n h.positive;
}

pub stop_child-IsSettling : (s : Rpc) → IsSettling s → IsSettling (stop_child s)
unfolding stop_child
stop_child-IsSettling s h =
    same-IsSettling s (stop_child s) (ground arith) (ground arith) (ground arith) (ground arith) h

pub send-IsSettling : (m : Message) (s : Rpc) → IsSettling s → IsSettling (after s (send m s))
unfolding send
send-IsSettling m s h =
    same-IsSettling s (after s (send m s)) (ground arith) (ground arith) (ground arith)
      (ground arith) h

with_entry-IsSettling :
    (method : String) (s : Rpc) → s.closed ≡ false → IsSettling s → IsSettling (with_entry method s)
with_entry-IsSettling method s is_open h = record {
  once = λ i. ground (
    arith,
    h.once i,
    h.positive,
    count_pending-append i s.pending (record { id = s.next_id; method = method }),
  );
  none_left = λ closed. cc;
  positive = omega (arith, h.positive);
}

is_pending_last : (ps : List Pending) (p : Pending) → is_pending (ps ++ p ∷ []) p.id ≡ true
unfolding is_pending
is_pending_last [] p = ground arith
is_pending_last (q ∷ ps) p = ground (arith, is_pending_last ps p)

after_send-IsSettling :
    (m : Message) (id : ℕ) (s : Rpc)
    → is_pending s.pending id ≡ true
    → IsSettling s
    → IsSettling (after_send id s (send m s))
unfolding send
after_send-IsSettling m id s there h = elim (Bool-cases (s.closed || not (is_writable s.child))) [
  | inl closed ↦ rw closed (settle-IsSettling id _ s there h)
  | inr writable ↦ rw writable (same-IsSettling s _ refl refl refl refl h)
]

pub request_now-IsSettling :
    (method : String) (params : Value) (ms : ℕ) (s : Rpc)
    → s.closed ≡ false
    → IsSettling s
    → IsSettling (request_now method params ms s).1
unfolding request_now
request_now-IsSettling method params ms s is_open h = elim (Bool-cases (nat_eq ms 0)) [
  | inl nothing ↦ rw (nothing, request_now) h
  | inr allowed ↦
      rw (allowed, request_now)
        (after_send-IsSettling _ s.next_id (with_entry method s)
          (is_pending_last s.pending (record { id = s.next_id; method = method }))
          (with_entry-IsSettling method s is_open h))
]

pub request-IsSettling :
    (method : String) (params : Value) (ms : ℕ) (s : Rpc)
    → IsSettling s
    → IsSettling (request method params ms s).1
unfolding request
request-IsSettling method params ms s h = elim (Bool-cases (not s.started || s.closed)) [
  | inl stopped ↦ rw (stopped, request) h
  | inr going ↦ rw (going, request) (request_now-IsSettling method params ms s (ground arith) h)
]

pub time_out-IsSettling :
    (ps : List Pending) (id : ℕ) (s : Rpc)
    → ((i : ℕ) → is_pending ps i ≡ true → is_pending s.pending i ≡ true)
    → IsSettling s
    → IsSettling (time_out ps id s)
unfolding time_out is_pending
time_out-IsSettling [] id s sub h = h
time_out-IsSettling (p ∷ ps) id s sub h = elim (Bool-cases (nat_eq p.id id)) [
  | inl hit ↦ rw hit (settle-IsSettling id _ s (sub id (rw hit)) h)
  | inr miss ↦ rw miss (time_out-IsSettling ps id s (λ i there. sub i (ground arith)) h)
]
