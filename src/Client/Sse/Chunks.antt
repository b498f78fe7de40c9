-- ===== src/Client/Sse/Chunks.antt =====
-- examples/tool-client.mjs, `readSse`: how the body is cut into chunks makes no difference.
use codex_official_bridge.Prelude.{
  ℕ, ◌+◌, ◌≤◌, ◌≡◌, refl, sym, ap, ◌∙◌, Bool, true, false, ◌&&◌, inl, inr, Option, List, [], ◌∷◌,
  ◌++◌, append-nil, append_assoc, nat_eq, Bool-cases, arith,
}
use codex_official_bridge.Json.{Value}
use codex_official_bridge.Codes.{Codes, is_break, IsLine}
use codex_official_bridge.Codes.Laws.{IsLine-append}
use codex_official_bridge.Client.Sse.{
  Parser, Reader, Reading, going, broken, ◌>>=◌, line, scan, feed, finish, result_of, read_chunks,
  fresh,
}

module _ {A B C : Type 0} where
  pub >>=_assoc :
      (m : Reading A) (f : A → Reading B) (g : B → Reading C)
      → (m >>= f) >>= g ≡ m >>= (λ a. f a >>= g)
  unfolding ◌>>=◌
  >>=_assoc (going r) f g = refl
  >>=_assoc (broken e) f g = refl

module _ {A B : Type 0} where
  pub >>=_ext : (m : Reading A) (f g : A → Reading B) → ((a : A) → f a ≡ g a) → m >>= f ≡ m >>= g
  unfolding ◌>>=◌
  >>=_ext (going r) f g h = h r
  >>=_ext (broken e) f g h = refl

-- The texts of all chunks, and their sizes.
abbrev pub joined : List (ℕ × Codes) → Codes
joined [] = []
joined ((n, chunk) ∷ chunks) = chunk ++ joined chunks

abbrev pub total : List (ℕ × Codes) → ℕ
total [] = 0
total ((n, chunk) ∷ chunks) = n + total chunks

module _ (parse : Codes → Option Value) where
  module _ (at_end : Bool) (before : Codes) (c d : ℕ) (cs : Codes) (p : Parser) where
    pub scan_on :
        is_break c ≡ false
        → scan parse at_end before (c ∷ d ∷ cs) p ≡ scan parse at_end (before ++ c ∷ []) (d ∷ cs) p
    unfolding scan
    scan_on e = rw (e, scan)

    pub scan_crlf :
        is_break c ≡ true
        → (nat_eq c 13 && nat_eq d 10) ≡ true
        → scan parse at_end before (c ∷ d ∷ cs) p ≡ line parse before p >>= scan parse at_end [] cs
    unfolding scan
    scan_crlf e f = rw (e, scan) (rw (f, scan))

    pub scan_break :
        is_break c ≡ true
        → (nat_eq c 13 && nat_eq d 10) ≡ false
        → scan parse at_end before (c ∷ d ∷ cs) p
          ≡ line parse before p >>= scan parse at_end [] (d ∷ cs)
    unfolding scan
    scan_break e f = rw (e, scan) (rw (f, scan))

  -- Codes with no break only move on.
  pub scan-IsLine :
      (at_end : Bool) (before xs ys : Codes) (p : Parser)
      → IsLine xs
      → scan parse at_end before (xs ++ ys) p ≡ scan parse at_end (before ++ xs) ys p
  unfolding scan
  scan-IsLine at_end before [] ys p h = ap (λ b. scan parse at_end b ys p) (sym (append-nil before))
  scan-IsLine at_end before (c ∷ []) [] p (e, h) = rw (e, scan)
  scan-IsLine at_end before (c ∷ []) (y ∷ ys) p (e, h) = scan_on at_end before c y ys p e
  scan-IsLine at_end before (c ∷ d ∷ xs) ys p (e, h) =
      scan_on at_end before c d (xs ++ ys) p e
      ∙ scan-IsLine at_end (before ++ c ∷ []) (d ∷ xs) ys p h
      ∙ ap (λ b. scan parse at_end b ys p) (append_assoc before (c ∷ []) (d ∷ xs))

  -- What follows a chunk.
  abbrev then_scan : Codes → Reader → Reading Reader
  then_scan ys r = scan parse false [] (r.buffer ++ ys) r.parser

  -- A line feed ends its line whatever follows it.
  pub scan_single :
      (before : Codes) (c : ℕ) (ys : Codes) (p : Parser)
      → is_break c ≡ true
      → nat_eq c 13 ≡ false
      → scan parse false before (c ∷ ys) p ≡ line parse before p >>= scan parse false [] ys
  unfolding scan
  scan_single before c [] p e f = rw (e, f, scan)
  scan_single before c (d ∷ ys) p e f = scan_break false before c d ys p e (rw f)

  scan-append :
      (before xs ys : Codes) (p : Parser)
      → IsLine before
      → scan parse false before (xs ++ ys) p ≡ scan parse false before xs p >>= then_scan ys
  unfolding ◌>>=◌ scan
  scan-append before [] ys p h = sym (scan-IsLine false [] before ys p h)
  scan-append before (c ∷ []) ys p h = elim (Bool-cases (is_break c)) [
    | inr no_break ↦
        let here = IsLine-append before (c ∷ []) h (no_break, tt) in
        rw no_break (
          scan-IsLine false before (c ∷ []) ys p (no_break, tt)
          ∙ sym (scan-IsLine false [] (before ++ c ∷ []) ys p here))
    | inl break ↦ elim (Bool-cases (nat_eq c 13)) [
      | inl held ↦
          rw (break, held)
            (sym (scan-IsLine false [] before (c ∷ ys) p h)
              ∙ ap (λ xs. scan parse false [] xs p) (sym (append_assoc before (c ∷ []) ys)))
      | inr single ↦
          rw (break, single)
            (scan_single before c ys p break single
              ∙ >>=_ext (line parse before p) _ _ (λ q. refl)
              ∙ sym (>>=_assoc (line parse before p) (scan parse false [] []) (then_scan ys)))
    ]
  ]
  scan-append before (c ∷ d ∷ xs) ys p h = elim (Bool-cases (is_break c)) [
    | inr no_break ↦
        scan_on false before c d (xs ++ ys) p no_break
        ∙ scan-append (before ++ c ∷ []) (d ∷ xs) ys p
            (IsLine-append before (c ∷ []) h (no_break, tt))
        ∙ ap (λ m. m >>= then_scan ys) (sym (scan_on false before c d xs p no_break))
    | inl break ↦ elim (Bool-cases (nat_eq c 13 && nat_eq d 10)) [
      | inl crlf ↦
          scan_crlf false before c d (xs ++ ys) p break crlf
          ∙ >>=_ext (line parse before p) _ _ (λ s. scan-append [] xs ys s tt)
          ∙ sym (>>=_assoc (line parse before p) _ _)
          ∙ ap (λ m. m >>= then_scan ys) (sym (scan_crlf false before c d xs p break crlf))
      | inr single ↦
          scan_break false before c d (xs ++ ys) p break single
          ∙ >>=_ext (line parse before p) _ _ (λ s. scan-append [] (d ∷ xs) ys s tt)
          ∙ sym (>>=_assoc (line parse before p) _ _)
          ∙ ap (λ m. m >>= then_scan ys) (sym (scan_break false before c d xs p break single))
    ]
  ]

  pub feed-append :
      (xs ys : Codes) (r : Reader) → feed parse (xs ++ ys) r ≡ feed parse xs r >>= feed parse ys
  unfolding feed
  feed-append xs ys r =
      ap (λ b. scan parse false [] b r.parser) (sym (append_assoc r.buffer xs ys))
      ∙ scan-append [] (r.buffer ++ xs) ys r.parser tt

  -- The end of the loop.
  abbrev pub close : Reader → Reading Value
  close r = finish parse r >>= λ p. result_of parse p.completed

  within :
      (limit size n : ℕ) (chunk : Codes) (chunks : List (ℕ × Codes)) (r : Reader)
      → size + n ≤ limit
      → read_chunks parse limit size ((n, chunk) ∷ chunks) r
        ≡ feed parse chunk r >>= read_chunks parse limit (size + n) chunks
  unfolding read_chunks
  within limit size n chunk chunks r h = ground arith

  read_chunks-feed :
      (limit size : ℕ) (first : Codes) (chunks : List (ℕ × Codes)) (r : Reader)
      → size + total chunks ≤ limit
      → feed parse first r >>= read_chunks parse limit size chunks
        ≡ feed parse (first ++ joined chunks) r >>= close
  unfolding read_chunks
  read_chunks-feed limit size first [] r h =
      ap (λ xs. feed parse xs r >>= close) (sym (append-nil first))
  read_chunks-feed limit size first ((n, chunk) ∷ chunks) r h =
      >>=_ext (feed parse first r) _ _ (λ q.
        within limit size n chunk chunks q (omega arith)
        ∙ read_chunks-feed limit (size + n) chunk chunks q (omega arith))
      ∙ sym (>>=_assoc (feed parse first r) (feed parse (chunk ++ joined chunks)) close)
      ∙ ap (λ m. m >>= close) (sym (feed-append first (chunk ++ joined chunks) r))

  -- A body within the limit, in whatever chunks it comes, is read as the one text that they make:
  -- the events, the failure and the result do not depend on how the network cuts it, also between
  -- a carriage return and its line feed.
  pub read_chunks-joined :
      (limit : ℕ) (chunks : List (ℕ × Codes))
      → total chunks ≤ limit
      → read_chunks parse limit 0 chunks (record { buffer = []; parser = fresh })
        ≡ feed parse (joined chunks) (record { buffer = []; parser = fresh }) >>= close
  unfolding read_chunks feed scan ◌>>=◌
  read_chunks-joined limit [] h = refl
  read_chunks-joined limit ((n, chunk) ∷ chunks) h =
      within limit 0 n chunk chunks (record { buffer = []; parser = fresh }) (omega arith)
      ∙ read_chunks-feed limit (0 + n) chunk chunks (record { buffer = []; parser = fresh })
          (omega arith)
