-- ===== src/Config/Migrated.antt =====
-- src/config/migration.rs: the lookups by id in a migrated configuration, and its integrations on
-- the way back.
use toche.Prelude.{
  List, [], ◌∷◌, ◌++◌, Option, some, true, Text, codes, map, ok, ◌≡◌, refl, append_assoc, ◌∙◌, ap,
  subst,
}
use toche.Config.Types.{Upstream, Policy, Integration, Naming, derive_id}
use toche.Config.Profiles.{Profile}
use toche.Config.Resolver.{find_upstream, find_policy, find_integration}
use toche.Config.Migration.{
  upstream_of, policy_of, integration_of, migrate_v1_to_v2, legacy_profile, legacy_profiles,
}
use toche.Config.Lookup.{distinct, find-middle}
use toche.Config.Canonical.{canonical, ids, profile_back, legacy_profiles-cons}

module _ (n : Naming) where
  -- The entries that the lookups by id find for a profile among the migrated ones.
  pub upstream_found :
      (d : Option Text) (pre post : List Profile) (p : Profile)
      → distinct (ids n (codes "upstream") (pre ++ p ∷ post)) ≡ true
      → find_upstream
          (migrate_v1_to_v2 n (record { default_name = d; profiles = pre ++ p ∷ post }))
          (integration_of n p).upstream
        ≡ some (upstream_of n p)
  unfolding find_upstream migrate_v1_to_v2 integration_of upstream_of
  upstream_found d pre post p h =
      find-middle (λ (q : Profile). derive_id n (codes "upstream") q.name) (upstream_of n)
        (λ (u : Upstream). u.id) (λ q. refl) pre post p h

  pub policy_found :
      (d : Option Text) (pre post : List Profile) (p : Profile)
      → distinct (ids n (codes "policy") (pre ++ p ∷ post)) ≡ true
      → find_policy
          (migrate_v1_to_v2 n (record { default_name = d; profiles = pre ++ p ∷ post }))
          (integration_of n p).policy
        ≡ some (policy_of n p)
  unfolding find_policy migrate_v1_to_v2 integration_of policy_of
  policy_found d pre post p h =
      find-middle (λ (q : Profile). derive_id n (codes "policy") q.name) (policy_of n)
        (λ (u : Policy). u.id) (λ q. refl) pre post p h

  pub integration_found :
      (d : Option Text) (pre post : List Profile) (p : Profile)
      → distinct (ids n (codes "integration") (pre ++ p ∷ post)) ≡ true
      → find_integration
          (migrate_v1_to_v2 n (record { default_name = d; profiles = pre ++ p ∷ post }))
          (integration_of n p).id
        ≡ some (integration_of n p)
  unfolding find_integration migrate_v1_to_v2 integration_of
  integration_found d pre post p h =
      find-middle (λ (q : Profile). derive_id n (codes "integration") q.name) (integration_of n)
        (λ (u : Integration). u.id) (λ q. refl) pre post p h

  pub profiles_back :
      (d : Option Text) (pre post : List Profile)
      → distinct (ids n (codes "upstream") (pre ++ post)) ≡ true
      → distinct (ids n (codes "policy") (pre ++ post)) ≡ true
      → legacy_profiles
          (migrate_v1_to_v2 n (record { default_name = d; profiles = pre ++ post }))
          (map (integration_of n) post)
        ≡ ok (map canonical post)
  unfolding legacy_profiles
  profiles_back d pre [] us ps = refl
  profiles_back d pre (p ∷ post) us ps =
      let step = append_assoc pre (p ∷ []) post in
      let rest =
        subst
          (λ all.
            distinct (ids n (codes "upstream") all) ≡ true
            → distinct (ids n (codes "policy") all) ≡ true
            → legacy_profiles (migrate_v1_to_v2 n (record { default_name = d; profiles = all }))
                (map (integration_of n) post)
              ≡ ok (map canonical post))
          step (profiles_back d (pre ++ p ∷ []) post) us ps in
      legacy_profiles-cons
        (migrate_v1_to_v2 n (record { default_name = d; profiles = pre ++ p ∷ post }))
        (integration_of n p) (map (integration_of n) post) (upstream_of n p) (map canonical post)
        (upstream_found d pre post p us) rest
      ∙ ap (λ q. ok (q ∷ map canonical post))
          (ap (legacy_profile (integration_of n p) (upstream_of n p)) (policy_found d pre post p ps)
            ∙ profile_back n p)
