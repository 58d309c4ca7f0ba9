-- ===== src/Config/Profiles.antt =====
-- src/profiles/types.rs: the old configuration.
use toche.Prelude.{Option, List, Bool, Text}
use toche.Prelude.Maps.{Map}
use toche.Config.Types.{ReduceConfig, EfficiencyConfig, SafeCacheConfig, GraphifyConfig}

pub data CacheMode : Type 0 where
  observe auto : CacheMode

pub data CacheBreakpoint : Type 0 where
  standard system_only : CacheBreakpoint

pub record CacheConfig : Type 0 where
  pub enabled : Bool
  pub mode : CacheMode
  pub breakpoint : CacheBreakpoint

pub data AuthMethod : Type 0 where
  api_key : Text → Text → AuthMethod
  bearer_token : Text → AuthMethod
  no_auth : AuthMethod

pub record Profile : Type 0 where
  pub name : Text
  pub upstream_url : Text
  pub auth_method : AuthMethod
  pub headers : Map Text
  pub models : Map Text
  pub cache : Option CacheConfig
  pub reduce : Option ReduceConfig
  pub efficiency : Option EfficiencyConfig
  pub safe_cache : Option SafeCacheConfig
  pub graphify : Option GraphifyConfig

pub record ProfileSet : Type 0 where
  pub default_name : Option Text
  pub profiles : List Profile
