-- ===== src/Rpc/Framing.antt =====
-- The child's output is read line by line, however it is cut into chunks.
use codex_official_bridge.Prelude.{
  ℕ, suc, ◌+◌, ◌≤◌, ◌<◌, ◌≡◌, refl, sym, ap, ◌∙◌, Bool, true, false, inl, inr, List, [], ◌∷◌, ◌++◌,
  arith, append-nil, append_assoc, length, length-append, ltb, nat_eq, Bool-cases, if_both,
  if◌then◌else◌,
}
use codex_official_bridge.Rpc.{Rpc, RpcError, Event, exit, fail, shut, stop_child}
use codex_official_bridge.Rpc.Lines.Cases.{on_line_cases}
use codex_official_bridge.Rpc.Lines.{
  Line, append, take_line, unless_closed, go_on, on_data, scan, too_long,
}

-- Listeners cannot reach the buffer, which only a failure resets, and cannot reopen the client.
pub record IsClient (listener : Event → Rpc → Rpc) : Type 0 where
  pub buffer : (e : Event) (s : Rpc) → s.buffer ≡ [] → (listener e s).buffer ≡ []
  pub stays : (e : Event) (s : Rpc) → s.closed ≡ true → (listener e s).closed ≡ true

buffer-stop_child : (s : Rpc) → (stop_child s).buffer ≡ s.buffer
unfolding stop_child
buffer-stop_child s = ground arith

closed-stop_child : (s : Rpc) → (stop_child s).closed ≡ s.closed
unfolding stop_child
closed-stop_child s = ground arith

module _ (listener : Event → Rpc → Rpc) (decode : List ℕ → Line) (max_line_bytes : ℕ) where
  -- The specification reads one byte at a time: a byte past the limit of a line closes the client.
  abbrev pub read_byte : ℕ → Rpc → Rpc
  read_byte b s =
      if nat_eq b 10
      then take_line listener decode s
      else if ltb max_line_bytes (suc (length s.buffer))
      then fail listener too_long s
      else record s { buffer = s.buffer ++ b ∷ [] }

  -- Nothing is read once the client is closed.
  unfoldable pub read : List ℕ → Rpc → Rpc
  read [] s = s
  read (b ∷ bs) s = read bs (if s.closed then s else read_byte b s)

  read_closed : (bs : List ℕ) (s : Rpc) → s.closed ≡ true → read bs s ≡ s
  unfolding read
  read_closed [] s c = refl
  read_closed (b ∷ bs) s c = simp c (read_closed bs s c)

  pub read-append : (xs ys : List ℕ) (s : Rpc) → read (xs ++ ys) s ≡ read ys (read xs s)
  unfolding read
  read-append [] ys s = refl
  read-append (x ∷ xs) ys s = read-append xs ys (if s.closed then s else read_byte x s)

  fail_twice-buffer :
      (s : Rpc) (buffer : List ℕ)
      → s.closed ≡ false
      → fail listener too_long (record s { buffer = buffer }) ≡ fail listener too_long s
  unfolding fail
  fail_twice-buffer s buffer is_open = simp is_open

  scan_line :
      (slice bs : List ℕ) (b : ℕ) (s : Rpc)
      → nat_eq b 10 ≡ true
      → scan listener decode max_line_bytes slice (b ∷ bs) s
        ≡ go_on listener decode max_line_bytes
            (scan listener decode max_line_bytes [] bs)
            (append listener decode max_line_bytes slice s)
  unfolding scan
  scan_line slice bs b s ends = rw (ends, scan)

  scan_more :
      (slice bs : List ℕ) (b : ℕ) (s : Rpc)
      → nat_eq b 10 ≡ false
      → scan listener decode max_line_bytes slice (b ∷ bs) s
        ≡ scan listener decode max_line_bytes (slice ++ b ∷ []) bs s
  unfolding scan
  scan_more slice bs b s more = rw (more, scan)

  read_byte_long :
      (b : ℕ) (s : Rpc)
      → nat_eq b 10 ≡ false
      → ltb max_line_bytes (suc (length s.buffer)) ≡ true
      → read_byte b s ≡ fail listener too_long s
  read_byte_long b s more long = rw (more, long)

  read_byte_short :
      (b : ℕ) (s : Rpc)
      → nat_eq b 10 ≡ false
      → ltb max_line_bytes (suc (length s.buffer)) ≡ false
      → read_byte b s ≡ record s { buffer = s.buffer ++ b ∷ [] }
  read_byte_short b s more short = rw (more, short)

  read_byte_line :
      (b : ℕ) (s : Rpc) → nat_eq b 10 ≡ true → read_byte b s ≡ take_line listener decode s
  read_byte_line b s ends = rw ends

  -- Too many bytes before the next line end: the client is closed, whatever follows.
  scan_overflow :
      (slice bs : List ℕ) (s : Rpc)
      → max_line_bytes < length s.buffer + length slice
      → scan listener decode max_line_bytes slice bs s ≡ fail listener too_long s
  unfolding scan append
  scan_overflow slice [] s long = ground arith
  scan_overflow slice (b ∷ bs) s long = elim (Bool-cases (nat_eq b 10)) [
    | inl ends ↦ rw (ends, scan) (ground arith)
    | inr more ↦
        rw (more, scan)
          (scan_overflow (slice ++ b ∷ []) bs s (omega (arith, length-append slice (b ∷ []))))
  ]

  module _ (client : IsClient listener) where
    fail-closed : (e : RpcError) (s : Rpc) → (fail listener e s).closed ≡ true
    unfolding fail
    fail-closed e s = elim (Bool-cases s.closed) [
      | inl shut_already ↦ ground arith
      | inr is_open ↦ simp is_open (closed-stop_child _ ∙ client.stays (exit e) (shut e s) refl)
    ]

    fail-buffer : (e : RpcError) (s : Rpc) → s.buffer ≡ [] → (fail listener e s).buffer ≡ []
    unfolding fail
    fail-buffer e s empty = elim (Bool-cases s.closed) [
      | inl shut_already ↦ simp shut_already empty
      | inr is_open ↦ simp is_open (buffer-stop_child _ ∙ client.buffer (exit e) (shut e s) refl)
    ]

    take_line-buffer : (s : Rpc) → (take_line listener decode s).buffer ≡ []
    unfolding take_line
    take_line-buffer s =
        on_line_cases listener (λ t. t.buffer ≡ []) (record s { buffer = [] })
          (λ e. fail-buffer e (record s { buffer = [] }) refl)
          (λ e. client.buffer e (record s { buffer = [] }) refl) (λ id o there. refl) refl decode
          s.buffer

    same_buffer : (s : Rpc) → record s { buffer = s.buffer ++ [] } ≡ s
    same_buffer s = ap (λ (b : List ℕ). record s { buffer = b }) (append-nil s.buffer)

    append_fits :
        (slice : List ℕ) (s : Rpc)
        → length s.buffer + length slice ≤ max_line_bytes
        → append listener decode max_line_bytes slice s
          ≡ (true, record s { buffer = s.buffer ++ slice })
    unfolding append
    append_fits slice s fits = ground arith

    read_open :
        (b : ℕ) (bs : List ℕ) (s : Rpc)
        → s.closed ≡ false
        → read (b ∷ bs) s ≡ read bs (read_byte b s)
    unfolding read
    read_open b bs s is_open = ap (λ (c : Bool). read bs (if c then s else read_byte b s)) is_open

    read-unless_closed :
        (bs : List ℕ) (k : Rpc → Rpc) (t : Rpc)
        → (t.closed ≡ false → k t ≡ read bs t)
        → unless_closed listener decode max_line_bytes k t ≡ read bs t
    unfolding unless_closed
    read-unless_closed bs k t same = elim (Bool-cases t.closed) [
      | inl closed ↦
          ap (λ (c : Bool). let r : Rpc = elim c [ true ↦ t | false ↦ k t ] in r) closed
          ∙ sym (read_closed bs t closed)
      | inr still_open ↦
          ap (λ (c : Bool). let r : Rpc = elim c [ true ↦ t | false ↦ k t ] in r) still_open
          ∙ same still_open
    ]

    -- The loop agrees with the specification while the line is within the limit.
    scan-read :
        (slice bs : List ℕ) (s : Rpc)
        → s.closed ≡ false
        → length s.buffer + length slice ≤ max_line_bytes
        → scan listener decode max_line_bytes slice bs s
          ≡ read bs (record s { buffer = s.buffer ++ slice })
    unfolding scan read
    scan-read slice [] s is_open fits = ap (λ (r : Bool × Rpc). r.1) (append_fits slice s fits)
    scan-read slice (b ∷ bs) s is_open fits = elim (Bool-cases (nat_eq b 10)) [
      | inl ends ↦
          let here = record s { buffer = s.buffer ++ slice } in
          let t = take_line listener decode here in
          scan_line slice bs b s ends
          ∙ ap (go_on listener decode max_line_bytes (scan listener decode max_line_bytes [] bs))
              (append_fits slice s fits)
          ∙ read-unless_closed bs _ t (λ still_open.
            scan-read [] bs t still_open (omega (arith, ap length (take_line-buffer here)))
            ∙ ap (read bs) (same_buffer t))
          ∙ ap (read bs) (sym (read_byte_line b here ends))
          ∙ sym (read_open b bs here is_open)
      | inr more ↦
          let here = record s { buffer = s.buffer ++ slice } in
          scan_more slice bs b s more
          ∙ elim (Bool-cases (ltb max_line_bytes (suc (length here.buffer)))) [
            | inl long ↦
                scan_overflow (slice ++ b ∷ []) bs s
                  (ground (arith, length-append s.buffer slice, length-append slice (b ∷ [])))
                ∙ sym (fail_twice-buffer s here.buffer is_open)
                ∙ sym (read_closed bs (fail listener too_long here) (fail-closed too_long here))
                ∙ ap (read bs) (sym (read_byte_long b here more long))
                ∙ sym (read_open b bs here is_open)
            | inr short ↦
                scan-read (slice ++ b ∷ []) bs s is_open
                  (ground (arith, length-append s.buffer slice, length-append slice (b ∷ [])))
                ∙ ap (λ (l : List ℕ). read bs (record s { buffer = l }))
                    (sym (append_assoc s.buffer slice (b ∷ [])))
                ∙ ap (read bs) (sym (read_byte_short b here more short))
                ∙ sym (read_open b bs here is_open)
          ]
    ]

    -- The bytes of a line that is not finished are within the limit.
    abbrev pub IsWithin : Rpc → Type 0
    IsWithin s = length s.buffer ≤ max_line_bytes

    -- Reading a chunk as the code does, slice by slice, is reading its bytes one at a time.
    pub on_data-read :
        (chunk : List ℕ) (s : Rpc)
        → IsWithin s
        → on_data listener decode max_line_bytes chunk s ≡ read chunk s
    unfolding on_data
    on_data-read chunk s fits =
        read-unless_closed chunk (scan listener decode max_line_bytes [] chunk) s
          λ is_open. scan-read [] chunk s is_open (omega arith) ∙ ap (read chunk) (same_buffer s)

    fail-IsWithin : (e : RpcError) (s : Rpc) → IsWithin s → IsWithin (fail listener e s)
    unfolding fail
    fail-IsWithin e s fits = elim (Bool-cases s.closed) [
      | inl closed ↦ ground arith
      | inr is_open ↦
          let emptied =
            buffer-stop_child (listener (exit e) (shut e s))
            ∙ client.buffer (exit e) (shut e s) refl in
          simp is_open (omega (arith, ap length emptied))
    ]

    read_byte-IsWithin : (b : ℕ) (s : Rpc) → IsWithin s → IsWithin (read_byte b s)
    read_byte-IsWithin b s fits =
        if_both IsWithin (nat_eq b 10) _ _ (omega (arith, ap length (take_line-buffer s)))
          (elim (Bool-cases (ltb max_line_bytes (suc (length s.buffer)))) [
            | inl long ↦ rw long (fail-IsWithin too_long s fits)
            | inr short ↦ rw short (ground (arith, length-append s.buffer (b ∷ [])))
          ])

    read-IsWithin : (bs : List ℕ) (s : Rpc) → IsWithin s → IsWithin (read bs s)
    unfolding read
    read-IsWithin [] s fits = fits
    read-IsWithin (b ∷ bs) s fits =
        read-IsWithin bs (if s.closed then s else read_byte b s)
          (if_both IsWithin s.closed _ _ fits (read_byte-IsWithin b s fits))

    -- For a listener that neither reaches the buffer nor reopens the client, and an unfinished line
    -- within the limit: two chunks leave the client as the one chunk that joins them, so the state,
    -- the events and the settled requests do not depend on how the pipe cuts the child's output.
    pub on_data-append :
        (xs ys : List ℕ) (s : Rpc)
        → IsWithin s
        → on_data listener decode max_line_bytes (xs ++ ys) s
          ≡ on_data listener decode max_line_bytes ys (on_data listener decode max_line_bytes xs s)
    on_data-append xs ys s fits =
        on_data-read (xs ++ ys) s fits
        ∙ read-append xs ys s
        ∙ sym (on_data-read ys (read xs s) (read-IsWithin xs s fits))
        ∙ ap (on_data listener decode max_line_bytes ys) (sym (on_data-read xs s fits))
