-- ===== src/Main.antt =====
-- src/main.mjs: the parts that it holds, and `shutdown`, cut at its wait for `bridge.close()`.
pub mod Once
use codex_official_bridge.Prelude.{
  ℕ, suc, Bool, true, false, not, ◌&&◌, ◌||◌, List, [], ◌∷◌, if◌then◌else◌,
}

-- `bridge` and `server` are set; how often `bridge.close`, `server.close` and
-- `server.closeAllConnections` were called, and whether `bridge.close` still runs; `exitCode` is 1.
pub record Main : Type 0 where
  pub bridge : Bool
  pub server : Bool
  pub shutting_down : Bool
  pub waiting : Bool
  pub bridge_closes : ℕ
  pub server_closes : ℕ
  pub drops : ℕ
  pub failed : Bool

unfoldable pub new : Main
new = record {
  bridge = false;
  server = false;
  shutting_down = false;
  waiting = false;
  bridge_closes = 0;
  server_closes = 0;
  drops = 0;
  failed = false;
}

abbrev once_more : Bool → ℕ → ℕ
once_more b n = if b then suc n else n

-- `shutdown()`, up to its wait.
unfoldable pub shutdown : Main → Main
shutdown m = if m.shutting_down then m else record m {
  shutting_down = true;
  waiting = true;
  server_closes = once_more m.server m.server_closes;
  bridge_closes = once_more m.bridge m.bridge_closes;
}

-- Behind the wait.
unfoldable pub after_close : Main → Main
after_close m =
    if m.waiting then record m { waiting = false; drops = once_more m.server m.drops } else m

abbrev with_failure : Main → Main
with_failure m = record m { failed = true }

pub data Step : Type 0 where
  -- The start goes on: the bridge is made, and the server, which the start waits for.
  makes_bridge makes_server : Step
  -- The start throws, the listener fails, the native runtime exits, a signal comes, and the wait of
  -- `shutdown` ends.
  throws listener_fails runtime_exits signals closes : Step

-- A start that has thrown does not go on.
unfoldable pub step : Step → Main → Main
unfolding shutdown after_close
step makes_bridge m = if m.shutting_down then m else record m { bridge = true }
step makes_server m = if m.shutting_down || not m.bridge then m else record m { server = true }
step throws m = shutdown (with_failure m)
step listener_fails m = if m.server then shutdown (with_failure m) else m
step runtime_exits m = if m.shutting_down || not m.server then m else shutdown (with_failure m)
step signals m = if m.server then shutdown m else m
step closes m = after_close m

unfoldable pub run : Main → List Step → Main
run m [] = m
run m (t ∷ ts) = run (step t m) ts
