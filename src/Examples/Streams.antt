-- ===== src/Examples/Streams.antt =====
-- Runs of the models of the event stream, between src/server.mjs and examples/tool-client.mjs, on
-- concrete inputs.
use codex_official_bridge.Prelude.{ℕ, ◌≡◌, refl, Option, none, some, List, [], ◌∷◌, arith}
use codex_official_bridge.Json.{Value, obj, field, end, str}
use codex_official_bridge.Codes.{Codes, codes}
use codex_official_bridge.Protocol.Error.{ok}
use codex_official_bridge.Server.Stream.{
  Piece, event, keepalive, fresh, sends, beats, conclude, run, Happening,
}
use codex_official_bridge.Server.Stream.Envelope.{IsOneKind, conclude_once}
use codex_official_bridge.Client.Sse.{Reading, ◌>>=◌, feed, result_of, read_chunks, going}
use codex_official_bridge.Client.Sse
use codex_official_bridge.Client.Sse.Chunks.{read_chunks-joined, joined, close}
use codex_official_bridge.Client.Sse.Events.{read_chunks-wires, follow}

abbrev completed : Value
completed = obj (
    field "type" (str "response.completed") (field "response" (obj (field "id" (str "r") end)) end))

-- A parser that knows one text.
abbrev parse : Codes → Option Value
parse content = some completed

abbrev pieces : List Piece
pieces = keepalive ∷ event (codes "a") (codes "{}") ∷ []

abbrev whole : List (ℕ × Codes)
whole =
    (11, codes ": keepalive")
    ∷ (4, 10 ∷ 10 ∷ codes "ev")
    ∷ (6, codes "ent: a")
    ∷ (9, 10 ∷ codes "data: {}")
    ∷ (2, 10 ∷ 10 ∷ [])
    ∷ []

read_chunks_result :
    read_chunks parse 100 0 whole (record { buffer = []; parser = Sse.fresh })
    ≡ going (obj (field "id" (str "r") end))
unfolding read_chunks ◌>>=◌ feed Sse.scan Sse.line codex_official_bridge.Json.is_truthy
    codex_official_bridge.Json.get Sse.finish
read_chunks_result = refl

read_chunks-joined_example :
    read_chunks parse 100 0 whole (record { buffer = []; parser = Sse.fresh })
    ≡ feed parse (joined whole) (record { buffer = []; parser = Sse.fresh }) >>= close parse
read_chunks-joined_example = read_chunks-joined parse 100 whole (omega arith)

read_chunks-wires_example :
    read_chunks parse 100 0 whole (record { buffer = []; parser = Sse.fresh })
    ≡ follow parse pieces none >>= result_of parse
read_chunks-wires_example =
    read_chunks-wires parse 100 pieces whole ((refl, tt), (refl, (refl, tt)), tt) refl (omega arith)

abbrev happenings : List Happening
happenings = sends 0 (codes "a") (codes "{}") ∷ beats ∷ []

conclude_once_example : IsOneKind (conclude (ok tt) (run fresh happenings))
conclude_once_example = conclude_once happenings (ok tt)
