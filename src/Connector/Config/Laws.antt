-- ===== src/Connector/Config/Laws.antt =====
-- Load of connector/pkg/config/config.go: what a loaded configuration is like.
use open_claw_bridge.Common.{
  ℕ, zero, suc, Option, none, some, List, [], ◌∷◌, Result, ok, err, ℤ, pos, negsuc, ◌≡◌, ◌≢◌, refl,
  inl, inr, Bool-cases, Option-cases, sym, ap,
}
use open_claw_bridge.Text.{Bytes, codes, text_eq}
use open_claw_bridge.Text.Laws.{text_eq_iff, text_eq_of_ne}
use open_claw_bridge.Protocol.Control.{hash_access_code}
use open_claw_bridge.Connector.Config.{
  ConfigError, unreadable, bad_json, no_relay_url, no_access_code, or_text, or_int, or_list,
  default_gateway, hash_of, with_hash, check_config, unmarshal_config, load,
}
use open_claw_bridge.Connector.Settings.{Config}
use open_claw_bridge.Connector.Settings.Laws.{config_layout, ReadsNumbers, read-config}
use open_claw_bridge.Json.{Codec, Reads}

-- Above zero.
abbrev pub IsPositive : ℤ → Type 0
IsPositive (pos zero) = ⊥
IsPositive (pos (suc n)) = Unit
IsPositive (negsuc n) = ⊥

-- No setting that the connector needs is missing.
pub record IsUsable (cfg : Config) : Type 0 where
  pub has_relay : cfg.relay_url ≢ []
  pub has_hash : cfg.access_code_hash ≢ []
  pub has_url : cfg.gateway.url ≢ []
  pub has_scope : cfg.gateway.scopes ≢ []
  pub has_locale : cfg.gateway.locale ≢ []
  pub has_user_agent : cfg.gateway.user_agent ≢ []
  pub min_positive : IsPositive cfg.gateway.min_protocol
  pub max_positive : IsPositive cfg.gateway.max_protocol
  pub timeout_positive : IsPositive cfg.gateway.challenge_timeout_seconds
  pub initial_positive : IsPositive cfg.gateway.reconnect_initial_seconds
  pub longest_positive : IsPositive cfg.gateway.reconnect_max_seconds

or_text-nonempty : (s t : Bytes) → t ≢ [] → or_text s t ≢ []
or_text-nonempty [] t h = h
or_text-nonempty (x ∷ s) t h = λ e. cc

or_list-nonempty : (k l : List Bytes) → l ≢ [] → or_list k l ≢ []
or_list-nonempty [] l h = h
or_list-nonempty (x ∷ k) l h = λ e. cc

or_int-IsPositive : (z y : ℤ) → IsPositive y → IsPositive (or_int z y)
or_int-IsPositive (pos zero) y h = h
or_int-IsPositive (pos (suc n)) y h = tt
or_int-IsPositive (negsuc n) y h = h

-- Nothing that is set is changed, and the hash is made of the access code where it is not set.
pub record Keeps (sha256 : Bytes → Bytes) (cfg loaded : Config) : Type 0 where
  pub same_relay : loaded.relay_url ≡ cfg.relay_url
  pub same_code : loaded.access_code ≡ cfg.access_code
  pub same_token : loaded.gateway.auth_token ≡ cfg.gateway.auth_token
  pub same_hash : cfg.access_code_hash ≢ [] → loaded.access_code_hash ≡ cfg.access_code_hash
  pub new_hash :
      cfg.access_code_hash ≡ [] → loaded.access_code_hash ≡ hash_access_code sha256 cfg.access_code
  pub same_url : cfg.gateway.url ≢ [] → loaded.gateway.url ≡ cfg.gateway.url
  pub same_scopes : cfg.gateway.scopes ≢ [] → loaded.gateway.scopes ≡ cfg.gateway.scopes
  pub same_locale : cfg.gateway.locale ≢ [] → loaded.gateway.locale ≡ cfg.gateway.locale
  pub same_agent : cfg.gateway.user_agent ≢ [] → loaded.gateway.user_agent ≡ cfg.gateway.user_agent
  pub same_min :
      IsPositive cfg.gateway.min_protocol → loaded.gateway.min_protocol ≡ cfg.gateway.min_protocol
  pub same_max :
      IsPositive cfg.gateway.max_protocol → loaded.gateway.max_protocol ≡ cfg.gateway.max_protocol
  pub same_timeout :
      IsPositive cfg.gateway.challenge_timeout_seconds
      → loaded.gateway.challenge_timeout_seconds ≡ cfg.gateway.challenge_timeout_seconds
  pub same_initial :
      IsPositive cfg.gateway.reconnect_initial_seconds
      → loaded.gateway.reconnect_initial_seconds ≡ cfg.gateway.reconnect_initial_seconds
  pub same_longest :
      IsPositive cfg.gateway.reconnect_max_seconds
      → loaded.gateway.reconnect_max_seconds ≡ cfg.gateway.reconnect_max_seconds

default-IsUsable :
    (cfg : Config) (x : ℕ) (hash : Bytes)
    → cfg.relay_url ≢ []
    → IsUsable (record cfg { access_code_hash = x ∷ hash; gateway = default_gateway cfg.gateway })
unfolding default_gateway
default-IsUsable cfg x hash h =
    let g = cfg.gateway in
    record {
      has_relay = h;
      has_hash = λ e. cc;
      has_url = or_text-nonempty g.url _ (λ e. cc);
      has_scope = or_list-nonempty g.scopes _ (λ e. cc);
      has_locale = or_text-nonempty g.locale _ (λ e. cc);
      has_user_agent = or_text-nonempty g.user_agent _ (λ e. cc);
      min_positive = or_int-IsPositive g.min_protocol (pos 3) tt;
      max_positive =
          or_int-IsPositive g.max_protocol (or_int g.min_protocol (pos 3))
            (or_int-IsPositive g.min_protocol (pos 3) tt);
      timeout_positive = or_int-IsPositive g.challenge_timeout_seconds (pos 8) tt;
      initial_positive = or_int-IsPositive g.reconnect_initial_seconds (pos 1) tt;
      longest_positive = or_int-IsPositive g.reconnect_max_seconds (pos 30) tt;
    }

or_text-same : (s t : Bytes) → s ≢ [] → or_text s t ≡ s
or_text-same [] t h = absurd (h refl)
or_text-same (x ∷ s) t h = refl

or_list-same : (k l : List Bytes) → k ≢ [] → or_list k l ≡ k
or_list-same [] l h = absurd (h refl)
or_list-same (x ∷ k) l h = refl

or_int-same : (z y : ℤ) → IsPositive z → or_int z y ≡ z
or_int-same (pos zero) y h = absurd h
or_int-same (pos (suc n)) y h = refl
or_int-same (negsuc n) y h = absurd h

default-Keeps :
    (sha256 : Bytes → Bytes) (cfg : Config) (hash : Bytes)
    → (cfg.access_code_hash ≢ [] → hash ≡ cfg.access_code_hash)
    → (cfg.access_code_hash ≡ [] → hash ≡ hash_access_code sha256 cfg.access_code)
    → Keeps sha256 cfg
        (record cfg { access_code_hash = hash; gateway = default_gateway cfg.gateway })
unfolding default_gateway
default-Keeps sha256 cfg hash kept made =
    let g = cfg.gateway in
    record {
      same_relay = refl;
      same_code = refl;
      same_token = refl;
      same_hash = kept;
      new_hash = made;
      same_url = or_text-same g.url _;
      same_scopes = or_list-same g.scopes _;
      same_locale = or_text-same g.locale _;
      same_agent = or_text-same g.user_agent _;
      same_min = or_int-same g.min_protocol (pos 3);
      same_max = or_int-same g.max_protocol (or_int g.min_protocol (pos 3));
      same_timeout = or_int-same g.challenge_timeout_seconds (pos 8);
      same_initial = or_int-same g.reconnect_initial_seconds (pos 1);
      same_longest = or_int-same g.reconnect_max_seconds (pos 30);
    }

-- What the file says.
abbrev pub IsFile : Codec → Option Bytes → Config → Type 0
IsFile c raw cfg = (s : Bytes) × ((raw ≡ some s) × (unmarshal_config c s ≡ some cfg))

-- What a configuration is loaded as: a usable one that keeps what was set, or the reason why not.
abbrev pub IsChecked : (Bytes → Bytes) → Config → Result ConfigError Config → Type 0
IsChecked sha256 cfg (ok loaded) = IsUsable loaded × Keeps sha256 cfg loaded
IsChecked sha256 cfg (err no_relay_url) = cfg.relay_url ≡ []
IsChecked sha256 cfg (err no_access_code) = (cfg.access_code ≡ []) × (cfg.access_code_hash ≡ [])
IsChecked sha256 cfg (err _) = ⊥

-- The same for the file.
abbrev pub IsLoaded : Codec → (Bytes → Bytes) → Option Bytes → Result ConfigError Config → Type 0
IsLoaded c sha256 raw (err unreadable) = raw ≡ none
IsLoaded c sha256 raw (err bad_json) =
    (s : Bytes) × ((raw ≡ some s) × (unmarshal_config c s ≡ none))
IsLoaded c sha256 raw r = (cfg : Config) × (IsFile c raw cfg × IsChecked sha256 cfg r)

with_hash-IsChecked :
    (sha256 : Bytes → Bytes) (cfg : Config) (code hash : Bytes)
    → cfg.access_code ≡ code
    → cfg.access_code_hash ≡ hash
    → cfg.relay_url ≢ []
    → IsChecked sha256 cfg (with_hash cfg (hash_of sha256 code hash))
unfolding hash_of hash_access_code
with_hash-IsChecked sha256 cfg code (x ∷ hash) hc hh h = (
  default-IsUsable cfg x hash h,
  default-Keeps sha256 cfg (x ∷ hash) (λ _. sym hh) (λ e. cc (e, hh)),
)
with_hash-IsChecked sha256 cfg [] [] hc hh h = (hc, hh)
with_hash-IsChecked sha256 cfg (x ∷ code) [] hc hh h = (
  default-IsUsable cfg _ _ h,
  default-Keeps sha256 cfg _ (λ n. absurd (n hh)) (λ _. ap (hash_access_code sha256) (sym hc)),
)

check_config-IsChecked :
    (sha256 : Bytes → Bytes) (cfg : Config) → IsChecked sha256 cfg (check_config sha256 cfg)
check_config-IsChecked sha256 cfg = elim (Bool-cases (text_eq cfg.relay_url [])) [
  | inl h ↦ rw h ((text_eq_iff cfg.relay_url []).0 h)
  | inr h ↦ rw h (
      with_hash-IsChecked sha256 cfg cfg.access_code cfg.access_code_hash refl refl
        (λ e. cc (h, (text_eq_iff cfg.relay_url []).1 e)))
]

checked-IsLoaded :
    (c : Codec) (sha256 : Bytes → Bytes) (raw : Option Bytes) (cfg : Config)
    (r : Result ConfigError Config)
    → IsFile c raw cfg
    → IsChecked sha256 cfg r
    → IsLoaded c sha256 raw r
checked-IsLoaded c sha256 raw cfg (ok loaded) f h = (cfg, (f, h))
checked-IsLoaded c sha256 raw cfg (err no_relay_url) f h = (cfg, (f, h))
checked-IsLoaded c sha256 raw cfg (err no_access_code) f h = (cfg, (f, h))
checked-IsLoaded c sha256 raw cfg (err unreadable) f h = absurd h
checked-IsLoaded c sha256 raw cfg (err bad_json) f h = absurd h

-- Load fails only where the file cannot be read, is not the JSON of a configuration, has no relay URL, or
-- has neither an access code nor its hash. What it returns otherwise misses no setting, and its numbers
-- are positive; what the file sets is as it was, and the hash, where it is not set, is that of the access
-- code.
pub load-IsLoaded :
    (c : Codec) (sha256 : Bytes → Bytes) (raw : Option Bytes)
    → IsLoaded c sha256 raw (load c sha256 raw)
unfolding load
load-IsLoaded c sha256 none = refl
load-IsLoaded c sha256 (some s) = elim (Option-cases (unmarshal_config c s)) [
  | inl e ↦ rw e (s, (refl, e))
  | inr (cfg, e) ↦ rw e (
      checked-IsLoaded c sha256 (some s) cfg (check_config sha256 cfg) (s, (refl, e))
        (check_config-IsChecked sha256 cfg))
]

default_gateway-same : (cfg : Config) → IsUsable cfg → default_gateway cfg.gateway ≡ cfg.gateway
unfolding default_gateway
default_gateway-same cfg u =
    let g = cfg.gateway in
    rw
      (
        or_text-same g.url (codes "ws://127.0.0.1:18789") u.has_url,
        or_int-same g.min_protocol (pos 3) u.min_positive,
        or_int-same g.max_protocol g.min_protocol u.max_positive,
        or_list-same g.scopes
            (codes "operator.read" ∷ codes "operator.write" ∷ codes "operator.admin" ∷ [])
            u.has_scope,
        or_text-same g.locale (codes "en-US") u.has_locale,
        or_text-same g.user_agent (codes "openclaw-bridge-connector/0.1.0") u.has_user_agent,
        or_int-same g.challenge_timeout_seconds (pos 8) u.timeout_positive,
        or_int-same g.reconnect_initial_seconds (pos 1) u.initial_positive,
        or_int-same g.reconnect_max_seconds (pos 30) u.longest_positive,
      )
      refl

hash_of-same :
    (sha256 : Bytes → Bytes) (code hash : Bytes) → hash ≢ [] → hash_of sha256 code hash ≡ ok hash
unfolding hash_of
hash_of-same sha256 code [] h = absurd (h refl)
hash_of-same sha256 code (x ∷ hash) h = refl

check_config-usable :
    (sha256 : Bytes → Bytes) (cfg : Config) → IsUsable cfg → check_config sha256 cfg ≡ ok cfg
check_config-usable sha256 cfg u =
    rw
      (
        text_eq_of_ne cfg.relay_url [] u.has_relay,
        hash_of-same sha256 cfg.access_code cfg.access_code_hash u.has_hash,
        default_gateway-same cfg u,
      )
      refl

-- A file that gives every setting, in the layout of the struct tags, is loaded as it says. The codec is
-- taken to read back this file and its five numbers.
pub load-config_layout :
    (c : Codec) (sha256 : Bytes → Bytes) (cfg : Config)
    → IsUsable cfg
    → Reads c (config_layout c cfg)
    → ReadsNumbers c cfg.gateway
    → load c sha256 (some (c.print (config_layout c cfg))) ≡ ok cfg
unfolding load unmarshal_config
load-config_layout c sha256 cfg u reads numbers =
    rw (reads, unmarshal_config)
      (rw (read-config c cfg numbers, unmarshal_config) (check_config-usable sha256 cfg u))
