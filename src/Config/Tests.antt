-- ===== src/Config/Tests.antt =====
-- The configuration's properties at a set of two profiles, with plain keys for the digest.
use toche.Prelude.{
  false, true, [], ◌∷◌, none, some, ◌≡◌, refl, codes, map, leb, ◌&&◌, ◌+◌, if◌then◌else◌, ok, trim,
  text_eq,
}
use toche.Config.Types.{Naming, derive_id}
use toche.Config.Profiles.{Profile, ProfileSet, api_key, no_auth}
use toche.Config.Resolver.{Host, resolve_default}
use toche.Config.Migration.{migrate_v1_to_v2, config_to_legacy_profiles}
use toche.Config.Load.{Toml, Calls, detect_and_load}
use toche.Config.Load.Recovery.{GivesMigrated, at_first, detect_and_load_twice}
use toche.Config.RoundTrip.{
  config_to_legacy_profiles-migrate, resolve_default-migrate, canonical_set, route_of,
}

-- Lower case on ASCII, and the whole text for its digest.
abbrev plain : Naming
plain = record {
  lowercase = map (λ c. if leb b'A' c && leb c b'Z' then c + 32 else c);
  digest = λ t. t;
}

abbrev no_host : Host
no_host = record { var = λ key. none; output = λ program. none }

abbrev work : Profile
work = record {
  name = codes "Work";
  upstream_url = codes "https://w";
  auth_method = api_key (codes "Authorization") (codes "k");
  headers = [];
  models = [];
  cache = none;
  reduce = none;
  efficiency = none;
  safe_cache = none;
  graphify = none;
}

abbrev home : Profile
home = record work { name = codes "home"; upstream_url = codes "https://h"; auth_method = no_auth }

abbrev both : ProfileSet
both = record { default_name = some (codes " HOME "); profiles = work ∷ home ∷ [] }

config_to_legacy_profiles-migrate_example :
    config_to_legacy_profiles (migrate_v1_to_v2 plain both) ≡ ok (canonical_set plain both)
unfolding derive_id text_eq trim
config_to_legacy_profiles-migrate_example =
    config_to_legacy_profiles-migrate plain both (refl, refl, refl)

resolve_default-migrate_example :
    resolve_default no_host (migrate_v1_to_v2 plain both) ≡ some (route_of plain no_host home)
unfolding derive_id text_eq trim
resolve_default-migrate_example = resolve_default-migrate plain no_host both (refl, refl, refl)

-- TOML at one configuration.
abbrev toml : Toml
toml = record {
  config_from_str = λ t. ok (migrate_v1_to_v2 plain both);
  profiles_from_str = λ t. ok both;
  to_string_pretty = λ c. ok (codes "v2");
}

-- The first run breaks off between the write of the new file and the renaming of the old one.
abbrev interrupted : Calls
interrupted = record { reads = true; writes = true; moves = false }

detect_and_load_twice_example :
    GivesMigrated plain toml
      (codes "v1")
      both
      (detect_and_load plain toml interrupted (at_first plain toml (codes "v1"))).1
detect_and_load_twice_example =
    detect_and_load_twice plain toml interrupted (codes "v1") (codes "v2") both refl refl refl
