-- ===== src/Connector/Settings.antt =====
-- connector/pkg/config/config.go: the settings, and json.Unmarshal of the file into them.
pub mod Laws
use open_claw_bridge.Common.{Option, none, some, List, [], ◌∷◌, if◌then◌else◌, ℤ, pos}
use open_claw_bridge.Text.{Bytes, codes, text_eq}
use open_claw_bridge.Json.{
  Value, Items, Fields, Codec, null, text, array, object, nil, cons, end, field, names, read_text,
  read_int,
}
use mathlib.Core.Option

pub record GatewayConfig : Type 0 where
  pub url : Bytes
  pub auth_token : Bytes
  pub min_protocol : ℤ
  pub max_protocol : ℤ
  pub scopes : List Bytes
  pub locale : Bytes
  pub user_agent : Bytes
  pub challenge_timeout_seconds : ℤ
  pub reconnect_initial_seconds : ℤ
  pub reconnect_max_seconds : ℤ

pub record Config : Type 0 where
  pub relay_url : Bytes
  pub access_code : Bytes
  pub access_code_hash : Bytes
  pub gateway : GatewayConfig

abbrev pub no_gateway_config : GatewayConfig
no_gateway_config = record {
  url = [];
  auth_token = [];
  min_protocol = pos 0;
  max_protocol = pos 0;
  scopes = [];
  locale = [];
  user_agent = [];
  challenge_timeout_seconds = pos 0;
  reconnect_initial_seconds = pos 0;
  reconnect_max_seconds = pos 0;
}

-- var cfg Config
abbrev pub no_config : Config
no_config = record {
  relay_url = [];
  access_code = [];
  access_code_hash = [];
  gateway = no_gateway_config;
}

-- The auth field, which has the token alone.
unfoldable pub set_token : Bytes → Bytes → Value → Option Bytes
unfolding names read_text
set_token token key v = if names key (codes "token") then read_text token v else some token

unfoldable pub read_auth_fields : Bytes → Fields → Option Bytes
unfolding set_token
read_auth_fields token end = some token
read_auth_fields token (field key v rest) = elim (set_token token key v) [
  | none ↦ none
  | some token' ↦ read_auth_fields token' rest
]

unfoldable pub read_auth : Bytes → Value → Option Bytes
unfolding read_auth_fields
read_auth token null = some token
read_auth token (object fs) = read_auth_fields token fs
read_auth token _ = none

-- The elements of a []string field. One that is null is empty: the field is taken to stand in the file
-- once, so that no earlier element is there to be kept.
unfoldable pub read_texts : Items → Option (List Bytes)
unfolding read_text
read_texts nil = some []
read_texts (cons v vs) = elim (read_text [] v) [
  | none ↦ none
  | some s ↦ Option.map (λ rest. s ∷ rest) (read_texts vs)
]

unfoldable pub read_text_slice : Value → Option (List Bytes)
unfolding read_texts
read_text_slice null = some []
read_text_slice (array vs) = read_texts vs
read_text_slice _ = none

unfoldable pub set_gateway : Codec → GatewayConfig → Bytes → Value → Option GatewayConfig
unfolding names read_text read_int read_auth read_text_slice
set_gateway c g key v =
    if names key (codes "url")
    then Option.map (λ s. record g { url = s }) (read_text g.url v)
    else if names key (codes "auth")
    then Option.map (λ s. record g { auth_token = s }) (read_auth g.auth_token v)
    else if names key (codes "min_protocol")
    then Option.map (λ z. record g { min_protocol = z }) (read_int c g.min_protocol v)
    else if names key (codes "max_protocol")
    then Option.map (λ z. record g { max_protocol = z }) (read_int c g.max_protocol v)
    else if names key (codes "scopes")
    then Option.map (λ l. record g { scopes = l }) (read_text_slice v)
    else if names key (codes "locale")
    then Option.map (λ s. record g { locale = s }) (read_text g.locale v)
    else if names key (codes "user_agent")
    then Option.map (λ s. record g { user_agent = s }) (read_text g.user_agent v)
    else if names key (codes "challenge_timeout_seconds")
    then Option.map (λ z. record g { challenge_timeout_seconds = z })
        (read_int c g.challenge_timeout_seconds v)
    else if names key (codes "reconnect_initial_seconds")
    then Option.map (λ z. record g { reconnect_initial_seconds = z })
        (read_int c g.reconnect_initial_seconds v)
    else if names key (codes "reconnect_max_seconds")
    then Option.map (λ z. record g { reconnect_max_seconds = z })
        (read_int c g.reconnect_max_seconds v)
    else some g

unfoldable pub read_gateway_fields : Codec → GatewayConfig → Fields → Option GatewayConfig
unfolding set_gateway
read_gateway_fields c g end = some g
read_gateway_fields c g (field key v rest) = elim (set_gateway c g key v) [
  | none ↦ none
  | some g' ↦ read_gateway_fields c g' rest
]

unfoldable pub read_gateway : Codec → GatewayConfig → Value → Option GatewayConfig
unfolding read_gateway_fields
read_gateway c g null = some g
read_gateway c g (object fs) = read_gateway_fields c g fs
read_gateway c g _ = none

unfoldable pub set_config : Codec → Config → Bytes → Value → Option Config
unfolding names read_text read_gateway
set_config c cfg key v =
    if names key (codes "relay_url")
    then Option.map (λ s. record cfg { relay_url = s }) (read_text cfg.relay_url v)
    else if names key (codes "access_code")
    then Option.map (λ s. record cfg { access_code = s }) (read_text cfg.access_code v)
    else if names key (codes "access_code_hash")
    then Option.map (λ s. record cfg { access_code_hash = s }) (read_text cfg.access_code_hash v)
    else if names key (codes "gateway")
    then Option.map (λ g. record cfg { gateway = g }) (read_gateway c cfg.gateway v)
    else some cfg

unfoldable pub read_config_fields : Codec → Config → Fields → Option Config
unfolding set_config
read_config_fields c cfg end = some cfg
read_config_fields c cfg (field key v rest) = elim (set_config c cfg key v) [
  | none ↦ none
  | some cfg' ↦ read_config_fields c cfg' rest
]

-- json.Unmarshal into the Config `old`.
unfoldable pub read_config : Codec → Config → Value → Option Config
unfolding read_config_fields
read_config c old null = some old
read_config c old (object fs) = read_config_fields c old fs
read_config c old _ = none
