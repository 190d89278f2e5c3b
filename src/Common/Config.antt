-- ===== src/Common/Config.antt =====
-- crates/common/src/config.rs: the configuration and `AppConfig::validate`. Loading files and the
-- environment is left out; of the floating-point sampling ratio there is whether it lies in [0, 1].
-- A map is the list of its pairs. The hash function keccak256 is a parameter.
pub mod Sound
use chain_rail.Base.{
  ℕ, Bool, true, false, ◌&&◌, ◌||◌, not, List, [], ◌∷◌, Option, none, some, Text, codes, text_eq,
  ltb, leb, ltb_ℤ, ◌==◌, if◌then◌else◌, ℤ, all, any, find, is_hexdigit, byte_len, starts_with,
}
use chain_rail.Common.Error.{Error}
use chain_rail.Common.Result.{Result, ok, err}
use chain_rail.Common.Money.{Amount, is_positive}
use chain_rail.Common.Money.Parse.{trim, trim_start_pair}
use chain_rail.Common.Finality.{FinalityPolicy, required_confirmations}
use chain_rail.Common.Address.{ChainKind, Address, parse}
use chain_rail.Risk.{RiskConfig, get}

pub record HttpConfig : Type 0 where
  pub bind : Text
  pub request_timeout_ms : ℕ
  pub max_body_bytes : ℕ
  pub rate_limit_rps : ℕ
  pub rate_limit_burst : ℕ
  pub default_page_size : ℕ
  pub max_page_size : ℕ
  pub api_token : Option Text

pub record DatabaseConfig : Type 0 where
  pub url : Text
  pub max_connections : ℕ
  pub min_connections : ℕ
  pub acquire_timeout_ms : ℕ
  pub statement_timeout_ms : ℕ
  pub run_migrations_on_boot : Bool

pub record KafkaConfig : Type 0 where
  pub brokers : Text
  pub consumer_group : Text
  pub topic_prefix : Text
  pub request_timeout_ms : ℕ
  pub max_delivery_attempts : ℕ
  pub retry_backoff_base_ms : ℕ
  pub retry_backoff_max_ms : ℕ
  pub use_outbox : Bool
  pub outbox_poll_interval_ms : ℕ
  pub outbox_batch_size : ℤ

pub record ObservabilityConfig : Type 0 where
  pub log_level : Text
  pub log_format : Text
  pub otlp_endpoint : Option Text
  pub is_ratio_in_range : Bool
  pub metrics_bind : Text

pub data SignerConfig : Type 0 where
  local_development : Text → SignerConfig
  mock : SignerConfig

pub record RpcEndpointConfig : Type 0 where
  pub name : Text
  pub url : Text
  pub weight : ℕ
  pub timeout_ms : ℕ
  pub max_inflight : ℕ
  pub failure_threshold : ℕ
  pub breaker_reset_ms : ℕ

pub record AssetConfig : Type 0 where
  pub symbol : Text
  pub decimals : ℕ
  pub contract_address : Option Text
  pub deposits_enabled : Bool
  pub withdrawals_enabled : Bool

pub record ChainConfig : Type 0 where
  pub id : Text
  pub kind : ChainKind
  pub numeric_chain_id : Option ℕ
  pub finality : FinalityPolicy
  pub poll_interval_ms : ℕ
  pub block_batch_size : ℕ
  pub reorg_scan_depth : ℕ
  pub start_block : Option ℕ
  pub hot_wallet_address : Option Text
  pub transfer_gas_limit : ℕ
  pub fee_bump_pct : ℕ
  pub rpc : List RpcEndpointConfig
  pub assets : List AssetConfig

pub record AppConfig : Type 0 where
  pub environment : Text
  pub service_name : Text
  pub http : HttpConfig
  pub database : DatabaseConfig
  pub kafka : KafkaConfig
  pub observability : ObservabilityConfig
  pub signer : SignerConfig
  pub risk : RiskConfig
  pub chains : List ChainConfig

-- `ChainConfig::asset`
abbrev pub asset : ChainConfig → Text → Option AssetConfig
asset c symbol = find (λ (a : AssetConfig). text_eq a.symbol symbol) c.assets

-- `AppConfig::chain`
abbrev pub chain : AppConfig → Text → Option ChainConfig
chain cfg id = find (λ (c : ChainConfig). text_eq c.id id) cfg.chains

-- `is_production_like`
abbrev pub is_production_like : AppConfig → Bool
is_production_like cfg = not (
    text_eq cfg.environment (codes "local")
    || text_eq cfg.environment (codes "test")
    || text_eq cfg.environment (codes "ci"))

-- A test that must hold, in a sequence that stops at the first that does not.
abbrev pub Checked : Type 0
Checked = Result (Unit {0})

abbrev pub ensure : Bool → Checked
ensure true = ok tt
ensure false = err Error.config

infixr 25 ◌then_also◌
abbrev pub ◌then_also◌ : Checked → Checked → Checked
ok u then_also r = r
err e then_also r = err e

-- A `for` loop of tests.
unfoldable pub each {ℓ} : {A : Type ℓ} → (A → Checked) → List A → Checked
each f [] = ok tt
each f (x ∷ xs) = f x then_also each f xs

-- A `for` loop with a set of the keys that were seen.
unfoldable pub each_new {ℓ} :
    {A : Type ℓ} → (A → Text) → (A → Checked) → List Text → List A → Checked
each_new key f seen [] = ok tt
each_new key f seen (x ∷ xs) =
    ensure (not (any (text_eq (key x)) seen))
    then_also f x
    then_also each_new key f (key x ∷ seen) xs

abbrev pub is_nil {ℓ} : {A : Type ℓ} → List A → Bool
is_nil [] = true
is_nil (x ∷ xs) = false

abbrev pub is_none {ℓ} : {A : Type ℓ} → Option A → Bool
is_none none = true
is_none (some a) = false

-- `map_err` to a configuration error.
abbrev pub as_config : Result Address → Checked
as_config (ok a) = ok tt
as_config (err e) = err Error.config

-- The section on http, database and observability.
unfoldable pub check_services : AppConfig → Checked
check_services cfg =
    ensure (leb cfg.http.default_page_size cfg.http.max_page_size)
    then_also ensure (not (cfg.http.max_body_bytes == 0))
    then_also ensure (not (cfg.http.rate_limit_rps == 0))
    then_also ensure (not (is_nil cfg.database.url))
    then_also ensure (leb cfg.database.min_connections cfg.database.max_connections)
    then_also ensure cfg.observability.is_ratio_in_range
    then_also ensure (
        text_eq cfg.observability.log_format (codes "json")
        || text_eq cfg.observability.log_format (codes "pretty"))

-- matches!(signer, LocalDevelopment | Mock)
abbrev pub is_development_signer : SignerConfig → Bool
is_development_signer (SignerConfig.local_development k) = true
is_development_signer SignerConfig.mock = true

-- The guard rails of production.
unfoldable pub check_production : AppConfig → Checked
check_production cfg =
    if is_production_like cfg
    then ensure (not (is_development_signer cfg.signer))
      then_also ensure (not (is_none cfg.http.api_token))
      then_also ensure (text_eq cfg.observability.log_format (codes "json"))
    else ok tt

abbrev pub is_key_hex : Text → Bool
is_key_hex k = byte_len k == 64 && all is_hexdigit k

unfoldable pub check_signer : SignerConfig → Checked
check_signer (SignerConfig.local_development k) =
    ensure (is_key_hex (trim_start_pair b'0' b'x' (trim k)))
check_signer SignerConfig.mock = ok tt

-- The test of an endpoint; the first argument is `is_production_like`.
unfoldable pub check_endpoint : Bool → RpcEndpointConfig → Checked
check_endpoint production ep =
    ensure (starts_with ep.url (codes "http://") || starts_with ep.url (codes "https://"))
    then_also ensure (not (production && starts_with ep.url (codes "http://")))
    then_also ensure (not (ep.timeout_ms == 0 || ep.max_inflight == 0 || ep.failure_threshold == 0))

abbrev pub is_evm : ChainKind → Bool
is_evm ChainKind.evm = true
is_evm ChainKind.solana = false

-- The depth of the scan for reorganisations must exceed the required confirmations.
abbrev pub check_depth : ℕ → Option ℕ → Checked
check_depth depth none = ok tt
check_depth depth (some required) = ensure (ltb required depth)

abbrev pub within_maximum : Amount → Option Amount → Checked
within_maximum min none = ok tt
within_maximum min (some max) = ensure (not (ltb_ℤ max min))

unfoldable pub check_minimum : RiskConfig → Text × Amount → Checked
check_minimum risk (key, min) =
    within_maximum min (get risk.max_per_request key) then_also ensure (is_positive min)

unfoldable pub check_risk : AppConfig → Checked
check_risk cfg =
    each (λ c. ensure (not (is_none (chain cfg c)))) cfg.risk.allowed_chains
    then_also each (check_minimum cfg.risk) cfg.risk.min_per_request
    then_also each (λ d. ensure (not (is_nil (trim d)))) cfg.risk.destination_denylist

module _ (keccak256 : Text → List ℕ) where
  abbrev pub check_address : ChainKind → Option Text → Checked
  check_address kind none = ok tt
  check_address kind (some a) = as_config (parse keccak256 kind a)

  unfoldable pub check_asset : ChainConfig → AssetConfig → Checked
  check_asset c a =
      ensure (leb a.decimals 36)
      then_also check_address c.kind a.contract_address
      then_also ensure (not (a.withdrawals_enabled && is_none c.hot_wallet_address))

  unfoldable pub check_chain : Bool → ChainConfig → Checked
  check_chain production c =
      ensure (not (is_nil c.rpc))
      then_also ensure (not (is_evm c.kind && is_none c.numeric_chain_id))
      then_also ensure (not (c.poll_interval_ms == 0 || c.block_batch_size == 0))
      then_also check_depth c.reorg_scan_depth (required_confirmations c.finality)
      then_also each_new (λ (ep : RpcEndpointConfig). ep.name) (check_endpoint production) [] c.rpc
      then_also each_new (λ (a : AssetConfig). a.symbol) (check_asset c) [] c.assets
      then_also check_address c.kind c.hot_wallet_address
      then_also ensure (is_evm c.kind)

  -- `AppConfig::validate`
  unfoldable pub validate : AppConfig → Checked
  validate cfg =
      check_services cfg
      then_also check_production cfg
      then_also check_signer cfg.signer
      then_also ensure (not (is_nil cfg.chains))
      then_also each_new (λ (c : ChainConfig). c.id) (check_chain (is_production_like cfg)) []
          cfg.chains
      then_also check_risk cfg
