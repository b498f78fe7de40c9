-- ===== src/Image/Connection/Trusted.antt =====
-- scripts/desktop-image-mcp.mjs, `loadConnection`: where the key is sent.
use codex_official_bridge.Prelude.{◌≡◌, true, ◌++◌}
use codex_official_bridge.Codes.{Codes, codes}
use codex_official_bridge.Image.Verdict.{Verdict}
use codex_official_bridge.Image.Connection.{
  Connection, is_key, is_web, is_plain, is_mount, without_slash,
}

-- Both paths lie under one mount of whole segments, and the key goes over HTTPS or to this machine.
abbrev pub IsTrusted : Connection → Type 0
IsTrusted c =
    (is_web c.base ≡ true)
    × (is_plain c.base ≡ true)
    × (is_key c.api_key ≡ true)
    × ((mount : Codes) × (is_mount mount ≡ true)
        × (without_slash c.base.pathname ≡ mount ++ codes "/v1")
        × (c.endpoint ≡ mount ++ codes "/v1/images/generations")
        × (c.health ≡ mount ++ codes "/healthz"))
