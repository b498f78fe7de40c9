-- ===== src/Native/Lifecycle.antt =====
-- src/native-runtime.mjs: `NativeRuntime`. The clock, the file system and the child process are
-- inputs: what they say in each round of the start-up loop, and which of their calls fail. A
-- start-up is one step: of a `close()` while its loop runs only the end of the child is seen, as a
-- child that is gone in a later round.
pub mod Settled
pub mod Live
use codex_official_bridge.Prelude.{
  ℕ, zero, suc, ◌+◌, ◌%◌, String, Bool, true, false, not, ◌&&◌, ◌||◌, Option, none, some, List, [],
  ◌∷◌, ◌++◌, length, ltb, leb, nat_eq, if◌then◌else◌,
}
use codex_official_bridge.Json.{Value, num, nat, str, get, undefined, null}
use codex_official_bridge.Codes.{Codes, codes}
use codex_official_bridge.Protocol.Error.{
  Thrown, bridge, other, bridge_error, BridgeError, Result, ok, throw,
}

-- What `lstat` and `readFile` find: `ENOENT`, another error, or a file with its size, its mode and
-- its content, where that can be read and parsed.
pub data Look : Type 0 where
  missing failing : Look
  found : (is_file : Bool) → (size mode : ℕ) → (content : Option Value) → Look

-- The rounds of the loop: the time at the head, whether the child is gone there and behind the
-- file, and what is found; whether `mkdtemp` makes the directory, whether `spawn` returns a child
-- where else it throws, and whether `rm` removes the directory of a start-up that failed.
pub record Startup : Type 0 where
  pub makes : Bool
  pub spawns : Bool
  pub removes : Bool
  pub clock : ℕ → ℕ
  pub gone : ℕ → Bool
  pub look : ℕ → Look
  pub gone_late : ℕ → Bool

-- Whether `child` is set and runs, and the directory that `controlDir` names is there; the sockets
-- of `webSockets`.
pub record NativeRuntime : Type 0 where
  pub spawned : Bool
  pub running : Bool
  pub closed : Bool
  pub port : Option ℕ
  pub token : Option String
  pub control_dir : Bool
  pub sockets : List ℕ

unfoldable pub new : NativeRuntime
new = record {
  spawned = false;
  running = false;
  closed = true;
  port = none;
  token = none;
  control_dir = false;
  sockets = [];
}

abbrev is_token_code : ℕ → Bool
is_token_code c =
    (leb b'A' c && leb c b'Z')
    || (leb b'a' c && leb c b'z')
    || (leb b'0' c && leb c b'9')
    || nat_eq c b'_'
    || nat_eq c b'-'

abbrev all_token_codes : Codes → Bool
all_token_codes [] = true
all_token_codes (c ∷ cs) = is_token_code c && all_token_codes cs

-- `/^[A-Za-z0-9_-]{32,256}$/`.
abbrev pub is_token : String → Bool
is_token text =
    let cs = codes text in leb 32 (length cs) && leb (length cs) 256 && all_token_codes cs

abbrev pub is_port : ℕ → Bool
is_port port = leb 1 port && leb port 65535

-- How the start-up ends: ready with a port and a token, with an error, or without fuel.
pub data Ended : Type 0 where
  ready : (port : ℕ) → (token : String) → Ended
  broken : (message : String) → Ended
  out_of_fuel : Ended

abbrev pub control_of : Value → Value → Option (ℕ × String)
control_of (num (nat port)) (str token) =
    if is_port port && is_token token then some (port, token) else none
control_of _ _ = none

-- The control data, and whether the child is gone behind them. Reading a property of `null` throws
-- as well.
abbrev pub take_control : (gone : Bool) → Option (ℕ × String) → Ended
take_control gone none = broken "Native runtime returned invalid control data."
take_control gone (some (port, token)) =
    if gone then broken "Native runtime exited before becoming ready." else ready port token

abbrev pub control_in : Option Value → Option (ℕ × String)
control_in none = none
control_in (some content) = control_of (get content "port") (get content "token")

-- The file of one round, and what the further rounds give where there is none.
abbrev pub at_look : (gone : Bool) → Look → Ended → Ended
at_look gone missing rest = rest
at_look gone failing rest = broken "The control file could not be read."
at_look gone (found is_file size mode content) rest =
    if not is_file || ltb 4096 size || not (nat_eq (mode % 64) 0)
    then broken "Native runtime control file is not private."
    else take_control gone (control_in content)

-- The `while` loop from a round on.
unfoldable pub wait : (fuel round deadline : ℕ) → Startup → Ended
wait zero round deadline startup = out_of_fuel
wait (suc fuel) round deadline startup =
    let rest = wait fuel (suc round) deadline startup in
    if not (ltb (startup.clock round) deadline)
    then broken "Native runtime startup timed out."
    else if startup.gone round
    then broken "Native runtime could not start. Build it with npm run build:native."
    else at_look (startup.gone_late round) (startup.look round) rest

-- `close()`; the child ends by `SIGTERM`, or by `SIGKILL` two seconds later. It throws where `rm`
-- cannot remove a directory that is there.
unfoldable pub close : (removes : Bool) → NativeRuntime → Result (Unit {0}) × NativeRuntime
close removes n =
    let left = n.control_dir && not removes in
    (
      if left then throw other else ok tt,
      record n { closed = true; sockets = []; running = false; token = none; control_dir = left },
    )

-- Behind the loop.
abbrev pub conclude : (removes : Bool) → Ended → NativeRuntime → Result (Unit {0}) × NativeRuntime
conclude removes (ready port token) n =
    (ok tt, record n { port = some port; token = some token; closed = false })
conclude removes _ n = (throw other, (close removes n).1)

-- `start()`, with the time at which the deadline is set.
unfoldable pub start :
    (fuel now timeout : ℕ) → Startup → NativeRuntime → Result (Unit {0}) × NativeRuntime
unfolding wait close
start fuel now timeout startup n =
    if n.spawned
    then (throw other, n)
    else if not startup.makes
    then (throw other, n)
    else if not startup.spawns
    then (throw other, record n { control_dir = true })
    else conclude startup.removes (wait fuel 0 (now + timeout) startup)
        (record n { spawned = true; running = true; control_dir = true })

-- The child emits `error` or `exit`.
unfoldable pub exit : NativeRuntime → NativeRuntime
exit n = record n { running = false; closed = true }

abbrev unavailable : Thrown
unavailable =
    bridge (bridge_error 503 "runtime_unavailable" "The official runtime is not running." none)

-- `forward`: the port and the token that the request is sent with.
unfoldable pub forward : NativeRuntime → Result (Option ℕ × Option String)
forward n = if n.closed then throw unavailable else ok (n.port, n.token)

-- `forwardWebSocket`, up to the tunnel, and its `finally`.
unfoldable pub open_socket : ℕ → NativeRuntime → Result (Option ℕ × Option String) × NativeRuntime
open_socket socket n =
    if n.closed
    then (throw unavailable, n)
    else (ok (n.port, n.token), record n { sockets = n.sockets ++ socket ∷ [] })

abbrev without : ℕ → List ℕ → List ℕ
without socket [] = []
without socket (s ∷ ss) = if nat_eq s socket then without socket ss else s ∷ without socket ss

unfoldable pub end_socket : ℕ → NativeRuntime → NativeRuntime
end_socket socket n = record n { sockets = without socket n.sockets }

pub data Step : Type 0 where
  starts : (fuel now timeout : ℕ) → Startup → Step
  exits : Step
  closes : (removes : Bool) → Step
  opens ends : (socket : ℕ) → Step

unfoldable pub step : Step → NativeRuntime → NativeRuntime
unfolding start exit close open_socket end_socket
step (starts fuel now timeout startup) n = (start fuel now timeout startup n).1
step exits n = exit n
step (closes removes) n = (close removes n).1
step (opens socket) n = (open_socket socket n).1
step (ends socket) n = end_socket socket n

unfoldable pub run : NativeRuntime → List Step → NativeRuntime
run n [] = n
run n (t ∷ ts) = run (step t n) ts
