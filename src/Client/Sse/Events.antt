-- ===== src/Client/Sse/Events.antt =====
-- examples/tool-client.mjs, `readSse`, on the text that src/server.mjs writes: the events are
-- handled one by one.
use codex_official_bridge.Prelude.{
  ℕ, ◌≤◌, ◌≡◌, refl, sym, ap, ◌∙◌, false, Option, none, some, List, [], ◌∷◌, ◌++◌, append_assoc,
  if_both,
}
use codex_official_bridge.Json.{Value, undefined, null, get, is_truthy}
use codex_official_bridge.Codes.{Codes, codes, same_codes, IsLine}
use codex_official_bridge.Codes.Laws.{IsLine-append}
use codex_official_bridge.Server.Stream.{Piece, event, keepalive, wire, wires}
use codex_official_bridge.Client.Sse.{
  Parser, Reader, Reading, going, broken, ◌>>=◌, fresh, line, dispatch, handle, take_event,
  is_failure, is_type, parsed, scan, feed, finish, result_of, read_chunks,
}
use codex_official_bridge.Client.Sse.Chunks.{
  scan-IsLine, scan_single, read_chunks-joined, joined, total, close, >>=_ext, >>=_assoc,
}

-- No name and no data has a line break.
abbrev pub AreLines : List Piece → Type 0
AreLines [] = Unit
AreLines (event name content ∷ ps) = IsLine name × IsLine content × AreLines ps
AreLines (keepalive ∷ ps) = AreLines ps

-- Between two events.
abbrev pub idle : Option Value → Parser
idle completed = record { event_name = []; data_lines = []; completed = completed }

module _ (parse : Codes → Option Value) where
  -- The events alone: what the response is after them.
  unfoldable pub follow : List Piece → Option Value → Reading (Option Value)
  follow [] completed = going completed
  follow (event name content ∷ ps) completed =
      handle parse name content (idle completed) >>= λ p. follow ps p.completed
  follow (keepalive ∷ ps) completed = follow ps completed

  scan-line :
      (l xs : Codes) (p : Parser)
      → IsLine l
      → scan parse false [] (l ++ 10 ∷ xs) p ≡ line parse l p >>= scan parse false [] xs
  scan-line l xs p h =
      scan-IsLine parse false [] l (10 ∷ xs) p h ∙ scan_single parse l 10 xs p refl refl

  name_line :
      (name : Codes) (c : Option Value)
      → line parse (codes "event: " ++ name) (idle c)
        ≡ going (record { event_name = name; data_lines = []; completed = c })
  unfolding line
  name_line name c = refl

  data_line :
      (name content : Codes) (c : Option Value)
      → line parse
          (codes "data: " ++ content)
          (record { event_name = name; data_lines = []; completed = c })
        ≡ going (record { event_name = name; data_lines = content ∷ []; completed = c })
  unfolding line
  data_line name content c = refl

  abbrev IsIdle : Reading Parser → Type 0
  IsIdle (going p) = p ≡ idle p.completed
  IsIdle (broken e) = Unit

  take_event-IsIdle :
      (v : Value) (name : Codes) (c : Option Value) → IsIdle (take_event parse v name (idle c))
  unfolding take_event
  take_event-IsIdle v name c = if_both IsIdle (is_failure v name) _ _ tt (
      if_both IsIdle (is_type "response.completed" v name) _ _
        (if_both IsIdle (is_truthy (get v "response")) _ _ refl tt) refl)

  parsed-IsIdle :
      (o : Option Value) (name : Codes) (c : Option Value) → IsIdle (parsed parse o name (idle c))
  parsed-IsIdle none name c = tt
  parsed-IsIdle (some undefined) name c = tt
  parsed-IsIdle (some null) name c = tt
  parsed-IsIdle (some v) name c = take_event-IsIdle v name c

  handle-IsIdle :
      (name content : Codes) (c : Option Value) → IsIdle (handle parse name content (idle c))
  unfolding handle
  handle-IsIdle name [] c = refl
  handle-IsIdle name (x ∷ xs) c =
      if_both IsIdle (same_codes (x ∷ xs) (codes "[DONE]")) _ _ refl
        (parsed-IsIdle (parse (x ∷ xs)) name c)

  -- An event leaves the reader between two events.
  stays_idle :
      (m : Reading Parser) (k : Parser → Reading Reader)
      → IsIdle m
      → m >>= k ≡ m >>= (λ p. k (idle p.completed))
  unfolding ◌>>=◌
  stays_idle (going p) k h = ap k h
  stays_idle (broken e) k h = refl

  abbrev at_rest : Option Value → Reader
  at_rest c = record { buffer = []; parser = idle c }

  wire_lines :
      (name content rest : Codes)
      → wire (event name content) ++ rest
        ≡ (codes "event: " ++ name) ++ 10 ∷ ((codes "data: " ++ content) ++ 10 ∷ 10 ∷ rest)
  wire_lines name content rest = simp append_assoc

  scan-keepalive :
      (rest : Codes) (c : Option Value)
      → scan parse false [] (wire keepalive ++ rest) (idle c) ≡ scan parse false [] rest (idle c)
  unfolding ◌>>=◌ line dispatch handle
  scan-keepalive rest c =
      scan-line (codes ": keepalive") (10 ∷ rest) (idle c) comment
      ∙ scan_single parse [] 10 rest (idle c) refl refl
    where
      comment : IsLine (codes ": keepalive")
      comment =
          (refl, (refl, (refl, (refl, (refl, (refl, (refl, (refl, (refl, (refl, (refl, tt)))))))))))

  scan-wire :
      (name content rest : Codes) (c : Option Value)
      → IsLine name
      → IsLine content
      → scan parse false [] (wire (event name content) ++ rest) (idle c)
        ≡ handle parse name content (idle c) >>= (λ p. scan parse false [] rest (idle p.completed))
  unfolding ◌>>=◌ line dispatch
  scan-wire name content rest c h k =
      let tail : Codes = (codes "data: " ++ content) ++ 10 ∷ 10 ∷ rest in
      let named : Parser = record { event_name = name; data_lines = []; completed = c } in
      let full : Parser = record { event_name = name; data_lines = content ∷ []; completed = c } in
      ap (λ xs. scan parse false [] xs (idle c)) (wire_lines name content rest)
      ∙ scan-line (codes "event: " ++ name) tail (idle c)
          (IsLine-append (codes "event: ") name event_name h)
      ∙ ap (λ m. m >>= scan parse false [] tail) (name_line name c)
      ∙ scan-line (codes "data: " ++ content) (10 ∷ rest) named
          (IsLine-append (codes "data: ") content data_name k)
      ∙ ap (λ m. m >>= scan parse false [] (10 ∷ rest)) (data_line name content c)
      ∙ scan_single parse [] 10 rest full refl refl
      ∙ stays_idle (handle parse name content (idle c)) (scan parse false [] rest)
          (handle-IsIdle name content c)
    where
      event_name : IsLine (codes "event: ")
      event_name = (refl, (refl, (refl, (refl, (refl, (refl, (refl, tt)))))))

      data_name : IsLine (codes "data: ")
      data_name = (refl, (refl, (refl, (refl, (refl, (refl, tt))))))

  scan-wires :
      (ps : List Piece) (c : Option Value)
      → AreLines ps
      → scan parse false [] (wires ps) (idle c) ≡ follow ps c >>= (λ d. going (at_rest d))
  unfolding follow scan ◌>>=◌
  scan-wires [] c h = refl
  scan-wires (keepalive ∷ ps) c h = scan-keepalive (wires ps) c ∙ scan-wires ps c h
  scan-wires (event name content ∷ ps) c (h, k, rest) =
      scan-wire name content (wires ps) c h k
      ∙ >>=_ext (handle parse name content (idle c)) _ _ (λ p. scan-wires ps p.completed rest)
      ∙ sym (>>=_assoc (handle parse name content (idle c)) _ _)

  -- A body within the limit that a stream of events makes, in whatever chunks it comes: the reader
  -- handles the events one by one, in their order, each with its name and its data, up to the first
  -- that fails, and then returns the response that the last of them completed. The names and the
  -- data have no line break.
  pub read_chunks-wires :
      (limit : ℕ) (ps : List Piece) (chunks : List (ℕ × Codes))
      → AreLines ps
      → joined chunks ≡ wires ps
      → total chunks ≤ limit
      → read_chunks parse limit 0 chunks (record { buffer = []; parser = fresh })
        ≡ follow ps none >>= result_of parse
  unfolding feed finish ◌>>=◌ scan dispatch handle
  read_chunks-wires limit ps chunks h e fits =
      read_chunks-joined parse limit chunks fits
      ∙ ap (λ xs. feed parse xs (at_rest none) >>= close parse) e
      ∙ ap (λ m. m >>= close parse) (scan-wires ps none h)
      ∙ >>=_assoc (follow ps none) _ _
      ∙ >>=_ext (follow ps none) _ _ (λ c. refl)
