-- ===== src/Examples/Runtimes.antt =====
-- Runs of the models of src/main.mjs and of `NativeRuntime` of src/native-runtime.mjs on concrete
-- inputs.
use codex_official_bridge.Prelude.{
  List, ◌+◌, ◌*◌, ◌≡◌, refl, true, false, some, [], ◌∷◌, ltb, if◌then◌else◌,
}
use codex_official_bridge.Json.{Value, num, nat, str, obj, field, end}
use codex_official_bridge.Protocol.Error.{ok}
use codex_official_bridge.Main
use codex_official_bridge.Native.Lifecycle.{
  Startup, missing, found, new, Step, starts, run, forward,
}

abbrev control : Value
control =
    obj
      (field "port" (num (nat 40000)) (field "token" (str "0123456789abcdef0123456789abcdef") end))

-- The control file is there in the third round.
abbrev startup : Startup
startup = record {
  makes = true;
  spawns = true;
  removes = true;
  clock = λ round. 100 + 50 * round;
  gone = λ round. false;
  look = λ round. if ltb round 2 then missing else found true 80 384 (some control);
  gone_late = λ round. false;
}

forward_result :
    forward (run new (starts 200 100 199 startup ∷ []))
    ≡ ok (some 40000, some "0123456789abcdef0123456789abcdef")
unfolding forward run codex_official_bridge.Native.Lifecycle.step new codex_official_bridge.Json.get
forward_result = refl

abbrev course : List Main.Step
course =
    Main.makes_bridge ∷ Main.makes_server ∷ Main.signals ∷ Main.listener_fails ∷ Main.closes ∷ []
