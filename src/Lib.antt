-- ===== src/Lib.antt =====
-- Codex Official Bridge: a gateway that offers a Responses API over HTTP and runs each turn in an
-- official Codex app-server child process. The parts and their models:
--
-- * src/protocol.mjs. `Protocol.Error` has `BridgeError` and `errorBody`, and exceptions as values;
--   `Protocol.Request` has `validateRequest`, check by check; `Protocol.Tools` has `dynamicTools`,
--   the way back from `bridge_fn_<i>` to a tool, and `canonical`; `Protocol.Segment` has
--   `ResponseSegment`, whose methods are actions on the segment that may throw midway.
-- * src/rpc.mjs. `Rpc` has the state of `CodexRpc`, `#fail`, `#send` and the public calls;
--   `Rpc.Lines` has `#onData`, `#append` and `#onLine`; `Rpc.Process` has starting and stopping the
--   child; `Rpc.Steps` has everything that can happen to a client as steps in any order.
-- * src/bridge.mjs. `Bridge` has the state of `CodexBridge`, with the client of src/rpc.mjs and the
--   segment of src/protocol.mjs inside it; `Bridge.Checks` and `Bridge.Respond` have `respond`,
--   `Bridge.Driving` has `drive`, `Bridge.Events` what the app-server sends, `Bridge.Ending`
--   `complete`, `fail`, `releaseSession` and `flushTool`, and `Bridge.Steps` all of them as steps in
--   any order. An asynchronous function is cut at its waits: what is behind a wait is a step.
-- * src/server.mjs, src/native-runtime.mjs, src/native-websocket.mjs and src/runtime.mjs. `Server`
--   has the decisions about requests and upgrades, `Server.Stream` the request body, the event
--   stream and the JSON answers, `Native` the headers and bodies that are forwarded,
--   `Native.Lifecycle` the class `NativeRuntime`, `Tunnel` the state of one WebSocket tunnel over the
--   events of its sockets, and `Runtime` the options and the environment of the child; `Assoc` has
--   the objects they use, and `Body` the loop that reads a body up to a limit.
-- * src/main.mjs. `Main` has `shutdown`, and what leads to it, as steps in any order.
-- * scripts/desktop-image-mcp.mjs. `Image` has its errors, `Image.Connection` `loadConnection` and
--   `parseOptions`, `Image.Png` `inspectPng`, `base64Png` and `decodeImageResponse`, `Image.Output`
--   `isInside` and `reserveOutput`, `Image.Service` `limitedBody` and `generate`, and `Image.Stdio`
--   `serveStdio`, with the ends of tool calls as steps of their own.
-- * examples/tool-client.mjs. `Client.Sse` has `readSse`, which reads what `Server.Stream` writes, and
--   `Client.Demo` the checks of `request` and the loop of `run`, which is recursion on the number of
--   responses that are left of eight.
-- * scripts/verify-websocket.mjs. `WebSocket.Frame` has `encodeFrame` and `frameDecoder`, and
--   `WebSocket.Session` the connection of `openWebSocket` behind the upgrade: the decoder with the
--   queue, the waiting calls of `receive` and the parts of a message as its state, and what happens
--   to it as steps in any order. `Bits` has the bit operations on bytes as arithmetic.
-- * scripts/build-native-runtime.mjs. `Build` has `check`, `exists`, `execute`, `sourceStatus` and
--   `freeSpace`, `Build.Toolchain` `rustToolchain`, and `Build.Stages` `preflight`, `prepareSource`,
--   `build` and the script itself, as actions that log their calls; every answer may depend on the
--   calls before it.
--
-- `Json` has the values that `JSON.parse` gives, `Text` and `Codes` the text operations of
-- JavaScript, `Action` methods that change an object and may throw, and `Prelude` what every module
-- shares.
--
-- Most loops are recursion on the list that they go through. Four take fuel. The chunks of a PNG
-- have twelve bytes at least, so that `inspect_png` takes the length of the buffer; the ancestors
-- of a path get shorter, so that `reserve_output` takes more than the measure of the directory; the
-- clock moves on between two rounds of the start-up of `NativeRuntime`, so that `start` takes more
-- than its timeout; and a WebSocket frame has two bytes at least, so that `on_chunk` takes more
-- than the length of the buffer. Texts are sequences of Unicode scalar values, and `utf16_length`
-- is `length` of JavaScript. What is not under the repository is a parameter: UUIDs, the clock,
-- `onEvent` (which may throw), the listeners of the client's events, and the decoding of a line or
-- a body (`toString`, `trim` and `JSON.parse`) as a function of its bytes; also the hash, the
-- base64 codec, the parser of URLs, `Number` of a text, the functions on paths, and what the file
-- system, the processes and the remote endpoint answer. Timers are steps that may come at any time.
--
-- Not modelled: file-system, process and socket calls themselves, the Rust runtime,
-- the shell, PowerShell and Python scripts, the request of a WebSocket upgrade in
-- scripts/verify-websocket.mjs, and the verification scripts that drive live services.
-- `NativeRuntime.start` is one step: of a `close()` while its loop runs only the end of the child is
-- seen.
pub mod Prelude
pub mod Json
pub mod Text
pub mod Action
pub mod Protocol
pub mod Rpc
pub mod Bridge
pub mod Assoc
pub mod Bits
pub mod Body
pub mod Build
pub mod Client
pub mod Codes
pub mod Examples
pub mod Image
pub mod Main
pub mod Native
pub mod Runtime
pub mod Server
pub mod Tunnel
pub mod WebSocket
