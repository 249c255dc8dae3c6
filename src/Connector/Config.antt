-- ===== src/Connector/Config.antt =====
-- connector/pkg/config/config.go: Load. What os.ReadFile returns is an argument.
pub mod Laws
use open_claw_bridge.Common.{
  ℕ, zero, suc, Option, none, some, List, [], ◌∷◌, if◌then◌else◌, Result, ok, err, ℤ, pos, negsuc,
}
use open_claw_bridge.Text.{Bytes, codes, text_eq}
use open_claw_bridge.Json.{Codec}
use open_claw_bridge.Protocol.Control.{hash_access_code}
use open_claw_bridge.Connector.Settings.{GatewayConfig, Config, no_config, read_config}

pub data ConfigError : Type 0 where
  unreadable bad_json no_relay_url no_access_code : ConfigError

-- if s == "" { s = fallback }
abbrev pub or_text : Bytes → Bytes → Bytes
or_text [] t = t
or_text (x ∷ s) t = x ∷ s

-- if z <= 0 { z = fallback }
abbrev pub or_int : ℤ → ℤ → ℤ
or_int (pos zero) y = y
or_int (pos (suc n)) y = pos (suc n)
or_int (negsuc n) y = y

-- if len(l) == 0 { l = fallback }
abbrev pub or_list : List Bytes → List Bytes → List Bytes
or_list [] l = l
or_list (x ∷ k) l = x ∷ k

unfoldable pub default_gateway : GatewayConfig → GatewayConfig
default_gateway g =
    let low = or_int g.min_protocol (pos 3) in
    record {
      url = or_text g.url (codes "ws://127.0.0.1:18789");
      auth_token = g.auth_token;
      min_protocol = low;
      max_protocol = or_int g.max_protocol low;
      scopes =
          or_list g.scopes
            (codes "operator.read" ∷ codes "operator.write" ∷ codes "operator.admin" ∷ []);
      locale = or_text g.locale (codes "en-US");
      user_agent = or_text g.user_agent (codes "openclaw-bridge-connector/0.1.0");
      challenge_timeout_seconds = or_int g.challenge_timeout_seconds (pos 8);
      reconnect_initial_seconds = or_int g.reconnect_initial_seconds (pos 1);
      reconnect_max_seconds = or_int g.reconnect_max_seconds (pos 30);
    }

-- The hash that the configuration gives, or that of its access code; `sha256` is crypto/sha256.
unfoldable pub hash_of : (Bytes → Bytes) → Bytes → Bytes → Result ConfigError Bytes
unfolding hash_access_code
hash_of sha256 code (x ∷ hash) = ok (x ∷ hash)
hash_of sha256 [] [] = err no_access_code
hash_of sha256 (x ∷ code) [] = ok (hash_access_code sha256 (x ∷ code))

abbrev pub with_hash : Config → Result ConfigError Bytes → Result ConfigError Config
with_hash cfg (err e) = err e
with_hash cfg (ok hash) =
    ok (record cfg { access_code_hash = hash; gateway = default_gateway cfg.gateway })

abbrev pub check_config : (Bytes → Bytes) → Config → Result ConfigError Config
check_config sha256 cfg =
    if text_eq cfg.relay_url []
    then err no_relay_url
    else with_hash cfg (hash_of sha256 cfg.access_code cfg.access_code_hash)

-- What json.Unmarshal makes of the file.
unfoldable pub unmarshal_config : Codec → Bytes → Option Config
unfolding read_config
unmarshal_config c raw = elim (c.parse raw) [ none ↦ none | some v ↦ read_config c no_config v ]

abbrev pub parsed_config : (Bytes → Bytes) → Option Config → Result ConfigError Config
parsed_config sha256 none = err bad_json
parsed_config sha256 (some cfg) = check_config sha256 cfg

unfoldable pub load : Codec → (Bytes → Bytes) → Option Bytes → Result ConfigError Config
unfolding hash_of default_gateway text_eq unmarshal_config
load c sha256 none = err unreadable
load c sha256 (some raw) = parsed_config sha256 (unmarshal_config c raw)
