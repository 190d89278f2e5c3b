-- ===== src/Tests/Config.antt =====
-- A configuration with one chain, and a canonical address.
use mathlib.Core.List.{Memᴰ}
use chain_rail.Base.{
  ℕ, ◌≡◌, ◌++◌, refl, true, false, List, [], ◌∷◌, none, some, Text, codes, pos, byte_len, all,
  is_hexdigit, to_ascii_lowercase,
}
use chain_rail.Common.Result.{ok}
use chain_rail.Common.Money.Parse.{keep, trim, trim_start, trim_end, is_whitespace}
use chain_rail.Common.Address.{
  ChainKind, Address, storage_key, parse, parse_evm, parse_body, checksum_body, checksum_from,
}
use chain_rail.Common.Address.Canonical.{parse_canonical, zero_digit}
use chain_rail.Common.Finality.{FinalityPolicy, required_confirmations}
use chain_rail.Common.Config.{
  AppConfig, ChainConfig, SignerConfig, chain, is_production_like, each, each_new, check_services,
  check_production, check_signer, check_endpoint, check_minimum, check_risk, check_asset,
  check_chain, validate,
}
use chain_rail.Common.Config.Sound.{validate-IsUsable, IsUsable}

-- A chain with the token and a hot wallet.
abbrev pub one_chain : ChainConfig
one_chain = record {
  id = codes "c";
  kind = ChainKind.evm;
  numeric_chain_id = some 1;
  finality = FinalityPolicy.confirmations 12;
  poll_interval_ms = 2000;
  block_batch_size = 50;
  reorg_scan_depth = 64;
  start_block = none;
  hot_wallet_address = some (codes "0x5aaeb6053f3e94c9b9a09f33669435e7ef1beaed");
  transfer_gas_limit = 120000;
  fee_bump_pct = 125;
  rpc =
      (record {
        name = codes "a";
        url = codes "http://a";
        weight = 100;
        timeout_ms = 5000;
        max_inflight = 32;
        failure_threshold = 5;
        breaker_reset_ms = 10000;
      })
      ∷ [];
  assets =
      (record {
        symbol = codes "T";
        decimals = 6;
        contract_address = none;
        deposits_enabled = true;
        withdrawals_enabled = true;
      })
      ∷ [];
}

abbrev pub app_config : AppConfig
app_config = record {
  environment = codes "local";
  service_name = codes "chainrail";
  http = record {
    bind = codes "0.0.0.0:8080";
    request_timeout_ms = 30000;
    max_body_bytes = 65536;
    rate_limit_rps = 100;
    rate_limit_burst = 200;
    default_page_size = 50;
    max_page_size = 200;
    api_token = none;
  };
  database = record {
    url = codes "postgres://";
    max_connections = 20;
    min_connections = 2;
    acquire_timeout_ms = 10000;
    statement_timeout_ms = 30000;
    run_migrations_on_boot = true;
  };
  kafka = record {
    brokers = codes "k";
    consumer_group = codes "chainrail";
    topic_prefix = [];
    request_timeout_ms = 5000;
    max_delivery_attempts = 5;
    retry_backoff_base_ms = 500;
    retry_backoff_max_ms = 30000;
    use_outbox = true;
    outbox_poll_interval_ms = 1000;
    outbox_batch_size = pos 200;
  };
  observability = record {
    log_level = codes "info";
    log_format = codes "json";
    otlp_endpoint = none;
    is_ratio_in_range = true;
    metrics_bind = codes "0.0.0.0:9090";
  };
  signer = SignerConfig.mock;
  risk = record {
    maintenance_mode = false;
    manual_approval_threshold = [];
    max_per_request = [];
    min_per_request = [];
    max_per_user_per_day = [];
    max_withdrawals_per_user_per_day = none;
    allowed_chains = [];
    destination_denylist = [];
  };
  chains = one_chain ∷ [];
}

-- A hash of which no digit asks for an upper case letter.
abbrev pub digest : Text → List ℕ
digest s = []

accepts : validate digest app_config ≡ ok tt
unfolding required_confirmations each each_new check_services check_production check_signer
    check_endpoint check_minimum check_risk check_asset check_chain validate parse parse_evm
    parse_body keep trim trim_start trim_end is_whitespace checksum_body checksum_from
accepts = refl

validate-IsUsable_example :
    (is_production_like app_config ≡ false)
    × ((c : ChainConfig)
        → Memᴰ c app_config.chains
        → (chain app_config c.id ≡ some c) × IsUsable digest (is_production_like app_config) c)
validate-IsUsable_example = validate-IsUsable digest app_config accepts

abbrev input : Text
input = codes " 0x5aaeb6053f3e94c9b9a09f33669435e7ef1beaed"

abbrev pub address : Address
address = codes "0x5aaeb6053f3e94c9b9a09f33669435e7ef1beaed"

parses : parse digest ChainKind.evm input ≡ ok address
unfolding parse parse_evm parse_body keep trim trim_start trim_end is_whitespace checksum_body
    checksum_from
parses = refl

parse_canonical_example :
    (parse digest ChainKind.evm address ≡ ok address)
    × ((body : Text) × (byte_len body ≡ 40)
        × (all is_hexdigit body ≡ true)
        × (all zero_digit body ≡ false)
        × (storage_key address ≡ codes "0x" ++ to_ascii_lowercase body))
parse_canonical_example = parse_canonical digest ChainKind.evm input address parses
