-- ===== src/Config/RoundTrip.antt =====
-- src/config/migration.rs and src/config/resolver.rs together: what a migrated configuration
-- says of the profiles that it came from.
use toche.Prelude.{
  and_then, [], Option, none, some, Bool, true, text_eq, trim, codes, find, map, ok, ◌≡◌, refl, ap,
  sym, subst, Option-cases, inl, inr,
}
use mathlib.Core.Option
use toche.Config.Types.{Integration, TocheConfig, Naming, derive_id}
use toche.Config.Profiles.{AuthMethod, api_key, bearer_token, no_auth, Profile, ProfileSet}
use toche.Config.Resolver.{
  Host, ResolvedIntegration, resolve_secret, find_upstream, find_policy, find_integration,
  resolve_integration, resolve_default,
}
use toche.Config.Migration.{
  migrate_auth, migrate_cache, upstream_of, policy_of, integration_of, default_of, migrate_v1_to_v2,
  config_to_legacy_profiles,
}
use toche.Config.Lookup.{distinct, find-split, find-map}
use toche.Config.Canonical.{canonical, ids, map-map}
use toche.Config.Migrated.{upstream_found, policy_found, integration_found, profiles_back}

module _ (n : Naming) where
  -- The first profile that the name of the default means.
  abbrev pub default_profile : ProfileSet → Option Profile
  default_profile set = and_then set.default_name (λ d.
      find (λ (p : Profile). text_eq (n.lowercase p.name) (n.lowercase (trim d))) set.profiles)

  default_found :
      (set : ProfileSet)
      → (migrate_v1_to_v2 n set).default_integration
        ≡ Option.map (λ (p : Profile). (integration_of n p).id) (default_profile set)
  unfolding migrate_v1_to_v2 default_of integration_of
  default_found set = elim (Option-cases set.default_name) [
    | inl e ↦ rw e refl
    | inr (d, e) ↦
        rw
          (
            e,
            find-map (λ (i : Integration). text_eq (n.lowercase i.name) (n.lowercase (trim d)))
                (integration_of n) set.profiles,
          )
          (map-map (integration_of n) (λ (i : Integration). i.id)
            (find (λ (p : Profile). text_eq (n.lowercase p.name) (n.lowercase (trim d)))
              set.profiles))
  ]

  -- Every list of keys of a set of profiles is without repetition.
  abbrev pub DistinctIds : ProfileSet → Type 0
  DistinctIds set =
      (distinct (ids n (codes "integration") set.profiles) ≡ true)
      × (distinct (ids n (codes "upstream") set.profiles) ≡ true)
      × (distinct (ids n (codes "policy") set.profiles) ≡ true)

  abbrev Found : ProfileSet → Profile → Type 0
  Found set p =
      (find_integration (migrate_v1_to_v2 n set) (integration_of n p).id
        ≡ some (integration_of n p))
      × (find_upstream (migrate_v1_to_v2 n set) (integration_of n p).upstream
          ≡ some (upstream_of n p))
      × (find_policy (migrate_v1_to_v2 n set) (integration_of n p).policy ≡ some (policy_of n p))

  parts-Found :
      (set : ProfileSet) (f : Profile → Bool) (p : Profile)
      → DistinctIds set
      → find f set.profiles ≡ some p
      → Found set p
  parts-Found set f p apart e =
      let (pre, post, split) = find-split f set.profiles p e in
      subst
        (λ all.
          DistinctIds (record { default_name = set.default_name; profiles = all })
          → Found (record { default_name = set.default_name; profiles = all }) p)
        (sym split)
        (λ (is, us, ps). (
          integration_found n set.default_name pre post p is,
          upstream_found n set.default_name pre post p us,
          policy_found n set.default_name pre post p ps,
        ))
        apart

  default_parts :
      (set : ProfileSet) (p : Profile)
      → DistinctIds set
      → default_profile set ≡ some p
      → Found set p
  default_parts set p apart e = elim (Option-cases set.default_name) [
    | inl none_ ↦ absurd (let h : none ≡ some p = rw none_ at e in cc)
    | inr (d, some_) ↦
        parts-Found set (λ (p : Profile). text_eq (n.lowercase p.name) (n.lowercase (trim d))) p
          apart (rw some_ at e)
  ]

  -- The default profile by its name, as the old configuration holds it.
  abbrev pub canonical_set : ProfileSet → ProfileSet
  canonical_set set = record {
    default_name = Option.map (λ (p : Profile). p.name) (default_profile set);
    profiles = map canonical set.profiles;
  }

  -- The profile's own address, headers, resolved secret, features and models.
  abbrev pub route_of : Host → Profile → ResolvedIntegration
  route_of host p = record {
    id = derive_id n (codes "integration") p.name;
    name = p.name;
    upstream_url = p.upstream_url;
    upstream_headers = p.headers;
    auth = record {
      header_name = (migrate_auth p.auth_method).1;
      secret_ref = (migrate_auth p.auth_method).0;
      value = elim p.auth_method [
        | api_key header key ↦ some key
        | bearer_token token ↦ some token
        | no_auth ↦ none
      ];
    };
    cache = Option.map migrate_cache p.cache;
    reduce = p.reduce;
    efficiency = p.efficiency;
    safe_cache = p.safe_cache;
    graphify = p.graphify;
    models = p.models;
  }

  secret_back :
      (host : Host) (a : AuthMethod)
      → resolve_secret host (migrate_auth a).0 ≡ elim a [
        | api_key header key ↦ some key
        | bearer_token token ↦ some token
        | no_auth ↦ none
      ]
  unfolding resolve_secret migrate_auth
  secret_back host (api_key header key) = refl
  secret_back host (bearer_token token) = refl
  secret_back host no_auth = refl

  route_back :
      (host : Host) (config : TocheConfig) (p : Profile)
      → find_upstream config (integration_of n p).upstream ≡ some (upstream_of n p)
      → find_policy config (integration_of n p).policy ≡ some (policy_of n p)
      → resolve_integration host config (integration_of n p) ≡ route_of host p
  unfolding resolve_integration integration_of upstream_of policy_of
  route_back host config p upstream policy =
      rw (upstream, policy, secret_back host p.auth_method) refl

  name_back :
      (set : ProfileSet)
      → DistinctIds set
      → and_then (migrate_v1_to_v2 n set).default_integration (λ id.
        Option.map (λ (i : Integration). i.name) (find_integration (migrate_v1_to_v2 n set) id))
        ≡ Option.map (λ (p : Profile). p.name) (default_profile set)
  unfolding integration_of find_integration
  name_back set apart = elim (Option-cases (default_profile set)) [
    | inl e ↦ rw (default_found set, e) refl
    | inr (p, e) ↦ rw (default_found set, e, (default_parts set p apart e).0) refl
  ]

  -- Where the keys that the migration derives from the profiles' names are distinct, the way back
  -- from the migrated configuration succeeds and gives the same profiles in the same order, but
  -- for a key under the header Authorization, which comes back as a bearer token, and absent
  -- cache settings, which come back as the default ones; the default is the first profile that
  -- its trimmed name means, without regard to case.
  pub config_to_legacy_profiles-migrate :
      (set : ProfileSet)
      → DistinctIds set
      → config_to_legacy_profiles (migrate_v1_to_v2 n set) ≡ ok (canonical_set set)
  unfolding config_to_legacy_profiles migrate_v1_to_v2
  config_to_legacy_profiles-migrate set apart =
      rw (name_back set apart, profiles_back n set.default_name [] set.profiles apart.1 apart.2)
        refl

  -- Where the keys that the migration derives from the profiles' names are distinct, requests under
  -- the migrated configuration go by the first profile that the trimmed name of the default means,
  -- without regard to case: with its address, headers, key or token, features and models. Without
  -- such a profile there is no route.
  pub resolve_default-migrate :
      (host : Host) (set : ProfileSet)
      → DistinctIds set
      → resolve_default host (migrate_v1_to_v2 n set)
        ≡ Option.map (route_of host) (default_profile set)
  unfolding resolve_default find_integration derive_id migrate_auth migrate_v1_to_v2
      resolve_integration find_upstream find_policy
  resolve_default-migrate host set apart = elim (Option-cases (default_profile set)) [
    | inl e ↦ rw (default_found set, e) refl
    | inr (p, e) ↦
        let (found, upstream, policy) = default_parts set p apart e in
        rw (default_found set, e, found)
          (ap some (route_back host (migrate_v1_to_v2 n set) p upstream policy))
  ]
