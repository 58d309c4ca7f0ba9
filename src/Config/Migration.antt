-- ===== src/Config/Migration.antt =====
-- src/config/migration.rs: from profiles to a configuration, and back.
use toche.Prelude.{
  and_then, List, [], ◌∷◌, ◌++◌, Option, none, some, true, Text, text_eq, trim, codes, find, map,
  Result, ok, err, ◌>>=◌, eq_ignore_ascii_case, if◌then◌else◌,
}
use mathlib.Core.Option
use toche.Cache.Breakpoint
use toche.Config.Types.{
  CachePolicy, CacheMode, observe, auto, SecretRef, environment, command, legacy_inline, absent,
  Upstream, Policy, Integration, TocheConfig, Naming, derive_id, default_runtime, default_storage,
}
use toche.Config.Profiles
use toche.Config.Profiles.{
  CacheConfig, AuthMethod, api_key, bearer_token, no_auth, Profile, ProfileSet,
}
use toche.Config.Resolver.{find_upstream, find_policy, find_integration}

unfoldable pub migrate_auth : AuthMethod → SecretRef × Text
migrate_auth (api_key header_name key) = (legacy_inline key, header_name)
migrate_auth (bearer_token token) = (legacy_inline token, codes "authorization")
migrate_auth no_auth = (absent, codes "x-api-key")

abbrev pub migrate_mode : Profiles.CacheMode → CacheMode
migrate_mode Profiles.observe = observe
migrate_mode Profiles.auto = auto

abbrev pub migrate_breakpoint : Profiles.CacheBreakpoint → Breakpoint.CacheBreakpoint
migrate_breakpoint Profiles.standard = Breakpoint.standard
migrate_breakpoint Profiles.system_only = Breakpoint.system_only

unfoldable pub migrate_cache : CacheConfig → CachePolicy
migrate_cache c = record {
  enabled = c.enabled;
  mode = migrate_mode c.mode;
  breakpoint = migrate_breakpoint c.breakpoint;
}

module _ (n : Naming) where
  unfoldable pub upstream_of : Profile → Upstream
  unfolding migrate_auth
  upstream_of p = record {
    id = derive_id n (codes "upstream") p.name;
    name = p.name;
    url = p.upstream_url;
    auth = record {
      secret_ref = (migrate_auth p.auth_method).0;
      header_name = (migrate_auth p.auth_method).1;
    };
    headers = p.headers;
  }

  unfoldable pub policy_of : Profile → Policy
  unfolding migrate_cache
  policy_of p = record {
    id = derive_id n (codes "policy") p.name;
    name = p.name;
    cache = Option.map migrate_cache p.cache;
    reduce = p.reduce;
    efficiency = p.efficiency;
    safe_cache = p.safe_cache;
  }

  unfoldable pub integration_of : Profile → Integration
  integration_of p = record {
    id = derive_id n (codes "integration") p.name;
    name = p.name;
    upstream = derive_id n (codes "upstream") p.name;
    policy = some (derive_id n (codes "policy") p.name);
    graphify = p.graphify;
    models = p.models;
  }

  unfoldable pub default_of : Option Text → List Integration → Option Text
  default_of none integrations = none
  default_of (some default_name) integrations =
      Option.map (λ (i : Integration). i.id)
        (find (λ (i : Integration). text_eq (n.lowercase i.name) (n.lowercase (trim default_name)))
          integrations)

  unfoldable pub migrate_v1_to_v2 : ProfileSet → TocheConfig
  unfolding upstream_of policy_of integration_of default_of
  migrate_v1_to_v2 set = record {
    schema_version = 2;
    runtime = default_runtime;
    default_integration = default_of set.default_name (map integration_of set.profiles);
    storage = default_storage;
    integrations = map integration_of set.profiles;
    upstreams = map upstream_of set.profiles;
    policies = map policy_of set.profiles;
  }

unfoldable pub legacy_auth : Upstream → AuthMethod
legacy_auth u = elim u.auth.secret_ref [
  | legacy_inline value ↦
      if eq_ignore_ascii_case u.auth.header_name (codes "authorization")
      then bearer_token value
      else api_key u.auth.header_name value
  | environment key ↦ no_auth
  | command program ↦ no_auth
  | absent ↦ no_auth
]

abbrev pub legacy_mode : CacheMode → Profiles.CacheMode
legacy_mode auto = Profiles.auto
legacy_mode observe = Profiles.observe

abbrev pub legacy_breakpoint : Breakpoint.CacheBreakpoint → Profiles.CacheBreakpoint
legacy_breakpoint Breakpoint.system_only = Profiles.system_only
legacy_breakpoint Breakpoint.standard = Profiles.standard

-- The cache settings of a policy; a policy without them counts as one with the defaults.
unfoldable pub legacy_cache : Option CachePolicy → CacheConfig
legacy_cache none = record {
  enabled = true;
  mode = Profiles.observe;
  breakpoint = Profiles.standard;
}
legacy_cache (some c) = record {
  enabled = c.enabled;
  mode = legacy_mode c.mode;
  breakpoint = legacy_breakpoint c.breakpoint;
}

unfoldable pub legacy_profile : Integration → Upstream → Option Policy → Profile
unfolding legacy_auth legacy_cache
legacy_profile integration upstream policy = record {
  name = integration.name;
  upstream_url = upstream.url;
  auth_method = legacy_auth upstream;
  headers = upstream.headers;
  models = integration.models;
  cache = Option.map (λ (p : Policy). legacy_cache p.cache) policy;
  reduce = and_then policy (λ (p : Policy). p.reduce);
  efficiency = and_then policy (λ (p : Policy). p.efficiency);
  safe_cache = and_then policy (λ (p : Policy). p.safe_cache);
  graphify = integration.graphify;
}

unfoldable pub legacy_profiles : TocheConfig → List Integration → Result (List Profile)
unfolding legacy_profile
legacy_profiles config [] = ok []
legacy_profiles config (integration ∷ rest) =
    let later = legacy_profiles config rest in
    elim (find_upstream config integration.upstream) [
      | none ↦ err (codes "upstream " ++ (integration.upstream ++ codes " not found"))
      | some upstream ↦ do
        profiles ← later
        ok (legacy_profile integration upstream (find_policy config integration.policy) ∷ profiles)
    ]

unfoldable pub config_to_legacy_profiles : TocheConfig → Result ProfileSet
unfolding legacy_profiles
config_to_legacy_profiles config = do
  profiles ← legacy_profiles config config.integrations
  ok (record {
    default_name =
        and_then config.default_integration
          (λ id. Option.map (λ (i : Integration). i.name) (find_integration config id));
    profiles = profiles;
  })
