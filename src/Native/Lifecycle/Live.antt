-- ===== src/Native/Lifecycle/Live.antt =====
-- src/native-runtime.mjs, `NativeRuntime`: what requests are forwarded to.
use codex_official_bridge.Prelude.{ℕ, String, ◌≡◌, true, false, Option}
use codex_official_bridge.Protocol.Error.{Result, ok, throw}
use codex_official_bridge.Native.Lifecycle.{NativeRuntime}
use codex_official_bridge.Native.Lifecycle.Settled.{IsReady}

-- Open only while it is ready.
abbrev pub IsLive : NativeRuntime → Type 0
IsLive n = n.closed ≡ false → IsReady n

-- A request is forwarded with a checked port and token to a child that runs, or refused.
abbrev pub IsForwarded : NativeRuntime → Result (Option ℕ × Option String) → Type 0
IsForwarded n (throw e) = n.closed ≡ true
IsForwarded n (ok (port, token)) = (port ≡ n.port) × (token ≡ n.token) × IsReady n
