-- ===== src/Config/Resolver.antt =====
-- src/config/resolver.rs. The environment and the shell are parameters.
use toche.Prelude.{and_then, [], Option, none, some, Bool, Text, text_eq, trim, find, if◌then◌else◌}
use mathlib.Core.Option
use toche.Prelude.Maps.{Map}
use toche.Config.Types.{
  CachePolicy, ReduceConfig, EfficiencyConfig, SafeCacheConfig, GraphifyConfig, SecretRef,
  environment, command, legacy_inline, absent, Upstream, Policy, Integration, TocheConfig,
}

-- The variables of the environment, and what a command run by `sh -c` leaves: whether it
-- succeeded, and its output. Nothing where it cannot be run.
pub record Host : Type 0 where
  pub var : Text → Option Text
  pub output : Text → Option (Bool × Text)

pub record ResolvedAuth : Type 0 where
  pub header_name : Text
  pub secret_ref : SecretRef
  pub value : Option Text

pub record ResolvedIntegration : Type 0 where
  pub id : Text
  pub name : Text
  pub upstream_url : Text
  pub upstream_headers : Map Text
  pub auth : ResolvedAuth
  pub cache : Option CachePolicy
  pub reduce : Option ReduceConfig
  pub efficiency : Option EfficiencyConfig
  pub safe_cache : Option SafeCacheConfig
  pub graphify : Option GraphifyConfig
  pub models : Map Text

unfoldable pub resolve_secret : Host → SecretRef → Option Text
resolve_secret host (environment key) = host.var key
resolve_secret host (command program) =
    and_then (host.output program) (λ (r : Bool × Text). if r.0 then some (trim r.1) else none)
resolve_secret host (legacy_inline value) = some value
resolve_secret host absent = none

unfoldable pub find_upstream : TocheConfig → Text → Option Upstream
find_upstream config id = find (λ (u : Upstream). text_eq u.id id) config.upstreams

unfoldable pub find_policy : TocheConfig → Option Text → Option Policy
find_policy config pid = and_then pid (λ id. find (λ (p : Policy). text_eq p.id id) config.policies)

unfoldable pub find_integration : TocheConfig → Text → Option Integration
find_integration config id = find (λ (i : Integration). text_eq i.id id) config.integrations

unfoldable pub resolve_integration : Host → TocheConfig → Integration → ResolvedIntegration
resolve_integration host config integration =
    let policy = find_policy config integration.policy in
    let upstream = find_upstream config integration.upstream in
    record {
      id = integration.id;
      name = integration.name;
      upstream_url = elim upstream [ some u ↦ u.url | none ↦ [] ];
      upstream_headers = elim upstream [ some u ↦ u.headers | none ↦ [] ];
      auth = elim upstream [
        | some u ↦ record {
          header_name = u.auth.header_name;
          secret_ref = u.auth.secret_ref;
          value = resolve_secret host u.auth.secret_ref;
        }
        | none ↦ record { header_name = []; secret_ref = absent; value = none }
      ];
      cache = and_then policy (λ (p : Policy). p.cache);
      reduce = and_then policy (λ (p : Policy). p.reduce);
      efficiency = and_then policy (λ (p : Policy). p.efficiency);
      safe_cache = and_then policy (λ (p : Policy). p.safe_cache);
      graphify = integration.graphify;
      models = integration.models;
    }

unfoldable pub resolve_default : Host → TocheConfig → Option ResolvedIntegration
resolve_default host config =
    and_then config.default_integration
      (λ id. Option.map (resolve_integration host config) (find_integration config id))
