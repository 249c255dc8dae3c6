-- ===== src/Connector/Settings/Laws.antt =====
-- connector/pkg/config/config.go: a file in the layout of the struct tags is read as it says.
use open_claw_bridge.Common.{some, List, [], ◌∷◌, ℤ, ◌≡◌, refl}
use open_claw_bridge.Text.{Bytes, codes}
use open_claw_bridge.Json.{
  Value, Items, Fields, Codec, ReadsInt, number, text, array, object, nil, cons, end, field,
  read_int,
}
use open_claw_bridge.Connector.Settings.{
  GatewayConfig, Config, no_config, no_gateway_config, read_texts, read_text_slice, set_gateway,
  read_gateway_fields, read_gateway, set_config, read_config_fields, read_config,
}

-- The layout, with every setting in its place.
abbrev pub item_list : List Bytes → Items
item_list [] = nil
item_list (s ∷ l) = cons (text s) (item_list l)

abbrev pub int_value : Codec → ℤ → Value
int_value c z = number (c.int_text z)

abbrev pub gateway_layout : Codec → GatewayConfig → Fields
gateway_layout c g = field (codes "url") (text g.url) (
    field (codes "auth") (object (field (codes "token") (text g.auth_token) end)) (
      field (codes "min_protocol") (int_value c g.min_protocol) (
        field (codes "max_protocol") (int_value c g.max_protocol) (
          field (codes "scopes") (array (item_list g.scopes)) (
            field (codes "locale") (text g.locale) (
              field (codes "user_agent") (text g.user_agent) (
                field (codes "challenge_timeout_seconds") (int_value c g.challenge_timeout_seconds)
                  (field (codes "reconnect_initial_seconds")
                    (int_value c g.reconnect_initial_seconds)
                    (field (codes "reconnect_max_seconds") (int_value c g.reconnect_max_seconds)
                      end)))))))))

abbrev pub config_layout : Codec → Config → Value
config_layout c cfg = object (
    field (codes "relay_url") (text cfg.relay_url) (
      field (codes "access_code") (text cfg.access_code) (
        field (codes "access_code_hash") (text cfg.access_code_hash)
          (field (codes "gateway") (object (gateway_layout c cfg.gateway)) end))))

-- Its numbers are read back as they were printed.
pub record ReadsNumbers (c : Codec) (g : GatewayConfig) : Type 0 where
  pub reads_min : ReadsInt c g.min_protocol
  pub reads_max : ReadsInt c g.max_protocol
  pub reads_timeout : ReadsInt c g.challenge_timeout_seconds
  pub reads_initial : ReadsInt c g.reconnect_initial_seconds
  pub reads_longest : ReadsInt c g.reconnect_max_seconds

read-item_list : (l : List Bytes) → read_texts (item_list l) ≡ some l
unfolding read_texts
read-item_list [] = refl
read-item_list (s ∷ l) = rw (read-item_list l) refl

module _ (c : Codec) where
  read-gateway :
      (t : GatewayConfig)
      → ReadsNumbers c t
      → read_gateway c no_gateway_config (object (gateway_layout c t)) ≡ some t
  unfolding read_gateway read_gateway_fields set_gateway read_int read_text_slice
  read-gateway t h = rw (h.reads_min) (
      rw (h.reads_max) (
        rw (read-item_list t.scopes)
          (rw (h.reads_timeout) (rw (h.reads_initial) (rw (h.reads_longest) refl)))))

  pub read-config :
      (cfg : Config)
      → ReadsNumbers c cfg.gateway
      → read_config c no_config (config_layout c cfg) ≡ some cfg
  unfolding read_config
  read-config cfg h = rw (read-gateway cfg.gateway h, read_config_fields, set_config) refl
