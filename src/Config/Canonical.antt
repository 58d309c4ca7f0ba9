-- ===== src/Config/Canonical.antt =====
-- src/config/migration.rs: what one profile is after the way to the new configuration and back.
use toche.Prelude.{
  arith, List, ◌∷◌, Option, none, some, true, Text, codes, map, ok, ◌≡◌, refl, eq_ignore_ascii_case,
  if◌then◌else◌,
}
use mathlib.Core.Option
use toche.Config.Types.{Upstream, Integration, TocheConfig, Naming, derive_id}
use toche.Config.Profiles.{
  CacheConfig, AuthMethod, api_key, bearer_token, no_auth, Profile, ProfileSet, observe, auto,
  standard, system_only,
}
use toche.Config.Resolver.{find_upstream, find_policy}
use toche.Config.Migration.{
  migrate_auth, migrate_cache, upstream_of, policy_of, integration_of, legacy_auth, legacy_cache,
  legacy_mode, migrate_mode, legacy_breakpoint, migrate_breakpoint, legacy_profile, legacy_profiles,
}
use toche.Config.Profiles
use toche.Prelude.Maps.{Map}

-- The two ways in which a profile changes: a key under the header Authorization is a bearer
-- token, and absent cache settings are written out.
abbrev pub canonical_auth : AuthMethod → AuthMethod
canonical_auth (api_key header key) =
    if eq_ignore_ascii_case header (codes "authorization")
    then bearer_token key
    else api_key header key
canonical_auth (bearer_token token) = bearer_token token
canonical_auth no_auth = no_auth

abbrev pub canonical_cache : Option CacheConfig → CacheConfig
canonical_cache none = record { enabled = true; mode = observe; breakpoint = standard }
canonical_cache (some c) = c

abbrev pub canonical : Profile → Profile
canonical p = record p {
  auth_method = canonical_auth p.auth_method;
  cache = some (canonical_cache p.cache);
}

-- The keys that the migration gives to the parts of the profiles.
abbrev pub ids : Naming → Text → List Profile → List Text
ids n prefix profiles = map (λ (p : Profile). derive_id n prefix p.name) profiles

auth_back :
    (i name url : Text) (h : Map Text) (a : AuthMethod)
    → legacy_auth (record {
      id = i;
      name = name;
      url = url;
      auth = record { secret_ref = (migrate_auth a).0; header_name = (migrate_auth a).1 };
      headers = h;
    })
      ≡ canonical_auth a
unfolding legacy_auth migrate_auth eq_ignore_ascii_case
auth_back i name url h (api_key header key) = refl
auth_back i name url h (bearer_token token) = refl
auth_back i name url h no_auth = refl

mode_back : (m : Profiles.CacheMode) → legacy_mode (migrate_mode m) ≡ m
mode_back observe = refl
mode_back auto = refl

breakpoint_back : (b : Profiles.CacheBreakpoint) → legacy_breakpoint (migrate_breakpoint b) ≡ b
breakpoint_back standard = refl
breakpoint_back system_only = refl

cache_back :
    (c : Option CacheConfig) → legacy_cache (Option.map migrate_cache c) ≡ canonical_cache c
unfolding legacy_cache migrate_cache
cache_back none = refl
cache_back (some c) = rw (mode_back c.mode, breakpoint_back c.breakpoint) refl

pub map-map :
    {A B C : Type 0} (g : A → B) (f : B → C) (o : Option A)
    → Option.map f (Option.map g o) ≡ Option.map (λ x. f (g x)) o
map-map g f none = refl
map-map g f (some a) = refl

-- One step of the way back.
pub legacy_profiles-cons :
    (config : TocheConfig) (i : Integration) (rest : List Integration) (u : Upstream)
    (ps : List Profile)
    → find_upstream config i.upstream ≡ some u
    → legacy_profiles config rest ≡ ok ps
    → legacy_profiles config (i ∷ rest) ≡ ok (legacy_profile i u (find_policy config i.policy) ∷ ps)
unfolding legacy_profiles
legacy_profiles-cons config i rest u ps found later = ground (arith, found, later)

module _ (n : Naming) where
  pub profile_back :
      (p : Profile)
      → legacy_profile (integration_of n p) (upstream_of n p) (some (policy_of n p)) ≡ canonical p
  unfolding legacy_profile integration_of policy_of upstream_of
  profile_back p =
      rw
        (
          auth_back (derive_id n (codes "upstream") p.name) p.name p.upstream_url p.headers
              p.auth_method,
          cache_back p.cache,
        )
        refl
