-- ===== src/Config/Types.antt =====
-- src/config/toche_config.rs, with the feature settings of src/reduce/config.rs,
-- src/efficiency/config.rs, src/safe_cache/config.rs and src/graphify/config.rs.
use toche.Prelude.{ℕ, List, Option, none, Bool, Text, ◌++◌, codes, trim, ◌*◌}
use toche.Prelude.Maps.{Map}
use toche.Cache.Breakpoint.{CacheBreakpoint}

pub record ReduceConfig : Type 0 where
  pub enabled : Bool
  pub command_bypass : List Text

pub data EfficiencyMode : Type 0 where
  normal concise careful : EfficiencyMode

pub record EfficiencyConfig : Type 0 where
  pub mode : EfficiencyMode

pub record SafeCacheConfig : Type 0 where
  pub enabled : Bool
  pub ttl_days : ℕ
  pub max_entry_bytes : ℕ

pub record GraphifyConfig : Type 0 where
  pub enabled : Bool
  pub graph_path : Option Text
  pub auto_extract : Bool

pub data CacheMode : Type 0 where
  observe auto : CacheMode

pub record CachePolicy : Type 0 where
  pub enabled : Bool
  pub mode : CacheMode
  pub breakpoint : CacheBreakpoint

pub data SecretRef : Type 0 where
  environment : Text → SecretRef
  command : Text → SecretRef
  legacy_inline : Text → SecretRef
  absent : SecretRef

pub record UpstreamAuth : Type 0 where
  pub secret_ref : SecretRef
  pub header_name : Text

pub record Upstream : Type 0 where
  pub id : Text
  pub name : Text
  pub url : Text
  pub auth : UpstreamAuth
  pub headers : Map Text

pub record Policy : Type 0 where
  pub id : Text
  pub name : Text
  pub cache : Option CachePolicy
  pub reduce : Option ReduceConfig
  pub efficiency : Option EfficiencyConfig
  pub safe_cache : Option SafeCacheConfig

pub record Integration : Type 0 where
  pub id : Text
  pub name : Text
  pub upstream : Text
  pub policy : Option Text
  pub graphify : Option GraphifyConfig
  pub models : Map Text

pub record RuntimeConfig : Type 0 where
  pub port : ℕ
  pub listen_address : Text
  pub request_timeout_ms : ℕ
  pub max_request_body_bytes : ℕ
  pub max_response_body_bytes : ℕ
  pub max_concurrent_upstream : ℕ
  pub upstream_permit_timeout_ms : ℕ

abbrev pub default_runtime : RuntimeConfig
default_runtime = record {
  port = 8743;
  listen_address = codes "127.0.0.1";
  request_timeout_ms = 300_000;
  max_request_body_bytes = 16 * 1024 * 1024;
  max_response_body_bytes = 64 * 1024 * 1024;
  max_concurrent_upstream = 8;
  upstream_permit_timeout_ms = 60_000;
}

pub record StorageConfig : Type 0 where
  pub ledger_db : Text
  pub cas_dir : Text
  pub max_cas_bytes : Option ℕ
  pub max_entries : Option ℕ
  pub min_free_disk_bytes : Option ℕ
  pub ledger_retention_days : Option ℕ

abbrev pub default_storage : StorageConfig
default_storage = record {
  ledger_db = codes "ledger.db";
  cas_dir = codes "cas";
  max_cas_bytes = none;
  max_entries = none;
  min_free_disk_bytes = none;
  ledger_retention_days = none;
}

-- `default_integration` is the only field of `DefaultsConfig`.
pub record TocheConfig : Type 0 where
  pub schema_version : ℕ
  pub runtime : RuntimeConfig
  pub default_integration : Option Text
  pub storage : StorageConfig
  pub integrations : List Integration
  pub upstreams : List Upstream
  pub policies : List Policy

-- `SecretRef` as it is displayed: the value of an inline secret is never shown.
unfoldable pub display : SecretRef → Text
display (environment key) = codes "env:" ++ key
display (command program) = codes "cmd:" ++ program
display (legacy_inline value) = codes "inline(***)"
display absent = codes "none"

-- `lowercase` is `str::to_lowercase`; `digest` gives the first four bytes of SHA-256 as
-- hexadecimal digits.
pub record Naming : Type 0 where
  pub lowercase : Text → Text
  pub digest : Text → Text

unfoldable pub derive_id : Naming → Text → Text → Text
derive_id n prefix name = n.digest (prefix ++ (codes ":" ++ n.lowercase (trim name)))
