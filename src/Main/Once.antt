-- ===== src/Main/Once.antt =====
-- src/main.mjs: what is closed, and how often.
use codex_official_bridge.Prelude.{ℕ, ◌≡◌, Bool, false, not, ◌&&◌, if◌then◌else◌}
use codex_official_bridge.Main.{Main}

abbrev one_if : Bool → ℕ
one_if b = if b then 1 else 0

-- Each part that there is was closed once where the program shuts down, and never before; the
-- connections are dropped once behind that.
pub record IsOnce (m : Main) : Type 0 where
  pub bridge : m.bridge_closes ≡ one_if (m.shutting_down && m.bridge)
  pub server : m.server_closes ≡ one_if (m.shutting_down && m.server)
  pub drops : m.drops ≡ one_if (m.shutting_down && not m.waiting && m.server)
  pub idle : m.shutting_down ≡ false → m.waiting ≡ false
