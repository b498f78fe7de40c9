-- ===== src/Native/Lifecycle/Settled.antt =====
-- src/native-runtime.mjs, `NativeRuntime`: the start-up ends, and what is ready is checked.
use codex_official_bridge.Prelude.{
  and_true, ℕ, suc, ◌<◌, ◌%◌, String, ◌≡◌, Bool, true, false, not, ◌&&◌, ◌||◌, Option, none, some,
  [], ltb, nat_eq, if_both, if_cases,
}
use codex_official_bridge.Json.{Value, num, nat, str, get}
use codex_official_bridge.Protocol.Error.{Result, ok, throw}
use codex_official_bridge.Native.Lifecycle.{
  Look, missing, failing, found, NativeRuntime, is_token, is_port, Ended, ready, broken,
  out_of_fuel, control_of, control_in, take_control, at_look,
}

abbrev pub IsControl : ℕ → String → Type 0
IsControl port token = (is_port port ≡ true) × (is_token token ≡ true)

-- Ready with checked data, or an error; what holds without fuel is given.
abbrev pub IsDecided : Type 0 → Ended → Type 0
IsDecided F (ready port token) = IsControl port token
IsDecided F (broken message) = Unit
IsDecided F out_of_fuel = F

abbrev IsKnown : Option (ℕ × String) → Type 0
IsKnown none = Unit
IsKnown (some (port, token)) = IsControl port token

control_of-IsKnown : (a b : Value) → IsKnown (control_of a b)
control_of-IsKnown (num (nat port)) (str token) =
    if_cases IsKnown (is_port port && is_token token) _ _
      (λ e. and_true (is_port port) (is_token token) e) λ e. tt
control_of-IsKnown a b = tt

control_in-IsKnown : (content : Option Value) → IsKnown (control_in content)
control_in-IsKnown none = tt
control_in-IsKnown (some content) = control_of-IsKnown (get content "port") (get content "token")

take_control-IsDecided :
    (F : Type 0) (gone : Bool) (c : Option (ℕ × String))
    → IsKnown c
    → IsDecided F (take_control gone c)
take_control-IsDecided F gone none h = tt
take_control-IsDecided F true (some (port, token)) h = tt
take_control-IsDecided F false (some (port, token)) h = h

pub at_look-IsDecided :
    (F : Type 0) (gone : Bool) (look : Look) (rest : Ended)
    → IsDecided F rest
    → IsDecided F (at_look gone look rest)
at_look-IsDecided F gone missing rest h = h
at_look-IsDecided F gone failing rest h = tt
at_look-IsDecided F gone (found is_file size mode content) rest h =
    if_both (IsDecided F) (not is_file || ltb 4096 size || not (nat_eq (mode % 64) 0)) _ _ tt
      (take_control-IsDecided F gone (control_in content) (control_in-IsKnown content))

-- The clock moves on from round to round.
abbrev pub IsAdvancing : (ℕ → ℕ) → Type 0
IsAdvancing clock = (round : ℕ) → clock round < clock (suc round)

-- Ready, with the port and the token of the control file.
abbrev pub IsReady : NativeRuntime → Type 0
IsReady n =
    (n.running ≡ true)
    × ((port : ℕ) × (token : String) × (n.port ≡ some port)
        × (n.token ≡ some token)
        × (is_port port ≡ true)
        × (is_token token ≡ true))

-- As it is before a start-up: no child, no directory, no token and no socket.
abbrev pub IsIdle : NativeRuntime → Type 0
IsIdle n =
    (n.spawned ≡ false)
    × (n.closed ≡ true)
    × (n.running ≡ false)
    × (n.control_dir ≡ false)
    × (n.token ≡ none)
    × (n.sockets ≡ [])

-- No process, no token and no socket, and whether the directory is left.
abbrev pub IsStopped : (left : Bool) → NativeRuntime → Type 0
IsStopped left n =
    (n.closed ≡ true)
    × (n.running ≡ false)
    × (n.control_dir ≡ left)
    × (n.token ≡ none)
    × (n.sockets ≡ [])

abbrev pub IsStarted : (left : Bool) → Result (Unit {0}) × NativeRuntime → Type 0
IsStarted left (ok u, n) = (n.closed ≡ false) × IsReady n
IsStarted left (throw e, n) = IsStopped left n
