-- ===== src/Examples/Sockets.antt =====
-- Concrete runs of the client of scripts/verify-websocket.mjs.
use codex_official_bridge.Prelude.{
  ℕ, ◌≡◌, refl, String, true, false, inl, inr, Option, none, some, List, [], ◌∷◌, ◌++◌, map, All,
  All-append, arith,
}
use codex_official_bridge.Codes.{Codes}
use codex_official_bridge.WebSocket.Frame.{Frame, encode_frame, drained, on_chunks}
use codex_official_bridge.WebSocket.Frame.Chunks.{concat}
use codex_official_bridge.WebSocket.Frame.Bounds.{IsBounded, IsKept, on_chunks-IsKept}
use codex_official_bridge.WebSocket.Frame.RoundTrip.{
  Sent, bytes_of, frame_of, follow, on_chunks-encode_frame,
}
use codex_official_bridge.WebSocket.Session.{new, reads, receives, times_out, closes, ends, run}
use codex_official_bridge.WebSocket.Session.Log.{events}
use codex_official_bridge.WebSocket.Session.Messages.{ping, piece, Reaches}
use codex_official_bridge.WebSocket.Session.Delivery.{Message, event_of, stream, run-reads-frames}
use codex_official_bridge.WebSocket.Session.Runs.{events_of, IsSafe, run-new-IsSafe}

-- A handler that keeps the frames.
abbrev collect : Frame → List Frame → Option String × List Frame
collect frame frames = (none, frames ++ frame ∷ [])

-- A masked text frame and a pong.
abbrev two_sent : List Sent
two_sent =
    record { payload = 72 ∷ 105 ∷ []; opcode = 1; mask = some (1 ∷ 2 ∷ 3 ∷ 4 ∷ []); fin = true }
    ∷ record { payload = 7 ∷ []; opcode = 10; mask = none; fin = true }
    ∷ []

abbrev two_chunks : List Codes
two_chunks = (129 ∷ 130 ∷ 1 ∷ []) ∷ (2 ∷ 3 ∷ 4 ∷ 73 ∷ 107 ∷ 138 ∷ []) ∷ (1 ∷ 7 ∷ []) ∷ []

two_bytes : concat two_chunks ≡ concat (map bytes_of two_sent)
unfolding encode_frame
two_bytes = refl

on_chunks-encode_frame_example :
    on_chunks 1000 collect two_chunks (drained [] [])
    ≡ follow 1000 collect (map frame_of two_sent) []
on_chunks-encode_frame_example =
    on_chunks-encode_frame 1000 collect two_chunks two_sent []
      (
        (omega arith, omega arith, omega arith, inl (omega arith), refl),
        ((omega arith, omega arith, omega arith, inr (refl, omega arith), tt), tt),
      )
      two_bytes

on_chunks-IsKept_example :
    IsKept 1000 collect
      (All (IsBounded 1000))
      (λ _. Unit)
      (on_chunks 1000 collect two_chunks (drained [] []))
on_chunks-IsKept_example =
    on_chunks-IsKept 1000 collect (All (IsBounded 1000)) (λ _. Unit) (λ _ _. tt)
      (λ frame frames b h. All-append (IsBounded 1000) frames (frame ∷ []) h (b, tt)) two_chunks
      (drained [] []) (omega arith, tt)

-- A text in two parts, with a ping between them, and one of bytes.
abbrev two_messages : List Message
two_messages =
    record { binary = false; parts = piece (72 ∷ []) ∷ ping (7 ∷ []) ∷ []; last = 105 ∷ [] }
    ∷ record { binary = true; parts = []; last = 0 ∷ [] }
    ∷ []

abbrev arriving : List Codes
arriving = (1 ∷ 1 ∷ 72 ∷ 137 ∷ []) ∷ (1 ∷ 7 ∷ 128 ∷ 1 ∷ []) ∷ (105 ∷ 130 ∷ 1 ∷ 0 ∷ []) ∷ []

arriving_stream : concat arriving ≡ stream two_messages
unfolding encode_frame
arriving_stream = refl

abbrev mask_of : ℕ → Codes
mask_of n = 1 ∷ 2 ∷ 3 ∷ n ∷ []

run-reads-frames_example :
    Reaches mask_of 200
      (run mask_of 200 (map reads arriving) (drained [] new))
      (events new)
      (map event_of two_messages)
unfolding new
run-reads-frames_example =
    run-reads-frames 200 (omega arith) (omega arith) mask_of arriving two_messages new
      (refl, refl, refl, inl refl) ((omega arith, (tt, (omega arith, tt))), ((omega arith, tt), tt))
      arriving_stream

run-new-IsSafe_example :
    let c = run mask_of 200 (receives ∷ reads (1 ∷ 1 ∷ 72 ∷ []) ∷ []) (drained [] new) in
    IsSafe (events_of mask_of 200 c) mask_of 200 (
      run mask_of 200
        (reads (128 ∷ 1 ∷ 105 ∷ []) ∷ receives ∷ times_out 1 ∷ closes 1000 ∷ ends ∷ [])
        c)
run-new-IsSafe_example =
    run-new-IsSafe mask_of 200 (receives ∷ reads (1 ∷ 1 ∷ 72 ∷ []) ∷ [])
      (reads (128 ∷ 1 ∷ 105 ∷ []) ∷ receives ∷ times_out 1 ∷ closes 1000 ∷ ends ∷ [])
