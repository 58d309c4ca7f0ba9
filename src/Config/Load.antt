-- ===== src/Config/Load.antt =====
-- src/config/migration.rs, `detect_and_load`, and src/config/loader.rs: loading the configuration,
-- with the migration of the old file on the way. Reading and printing TOML are parameters. A write is
-- atomic: it puts a whole file in place or leaves the old one.
pub mod Recovery
use toche.Prelude.{
  ℕ, ◌++◌, Option, none, some, Bool, true, false, Text, codes, Result, ok, err, ◌>>=◌,
  if◌then◌else◌, ◌==◌,
}
use toche.Config.Types.{Naming, TocheConfig}
use toche.Config.Profiles.{ProfileSet}
use toche.Config.Resolver.{Host, ResolvedIntegration, resolve_default}
use toche.Config.Migration.{migrate_v1_to_v2}

-- The files of the directory: `config.toml`, `profiles.toml` and `profiles.toml.v1.bak`.
pub record Files : Type 0 where
  pub config : Option Text
  pub profiles : Option Text
  pub backup : Option Text

-- Whether each system call of one run succeeds: the reading of a file, the write of the new one, and
-- the renaming or removal of the old one.
pub record Calls : Type 0 where
  pub reads : Bool
  pub writes : Bool
  pub moves : Bool

-- The `toml` crate on the two types.
pub record Toml : Type 0 where
  pub config_from_str : Text → Result TocheConfig
  pub profiles_from_str : Text → Result ProfileSet
  pub to_string_pretty : TocheConfig → Result Text

pub data ConfigSource : Type 0 where
  v2 : TocheConfig → ConfigSource
  v1_migrated : TocheConfig → ConfigSource
  missing : ConfigSource

abbrev read_to_string : Calls → Text → Result Text
read_to_string io content = if io.reads then ok content else err (codes "read")

abbrev known : TocheConfig → Result ConfigSource
known config =
    if config.schema_version == 2
    then ok (v2 config)
    else err (codes "Unknown schema_version in config.toml")

unfoldable pub load_v2 : Toml → Calls → Text → Result ConfigSource
load_v2 toml io text = do
  content ← read_to_string io text
  config ← toml.config_from_str content
  known config

-- The old file put aside, or removed where a backup is there already.
unfoldable pub put_aside : Text → Files → Files
put_aside old files = elim files.backup [
  | none ↦ record files { profiles = none; backup = some old }
  | some kept ↦ record files { profiles = none }
]

unfoldable pub save_migrated :
    Calls → TocheConfig → Text → Text → Files → Result ConfigSource × Files
unfolding put_aside
save_migrated io config old text files =
    if io.writes
    then (let written : Files = record files { config = some text } in
        if io.moves
        then (ok (v1_migrated config), put_aside old written)
        else (err (codes "rename"), written))
    else (err (codes "write"), files)

module _ (n : Naming) (toml : Toml) where
  -- The migration of the old profiles, up to the text of the new file.
  unfoldable pub migrated : Calls → Text → Result (TocheConfig × Text)
  migrated io old = do
    content ← read_to_string io old
    profiles ← toml.profiles_from_str content
    text ← toml.to_string_pretty (migrate_v1_to_v2 n profiles)
    ok (migrate_v1_to_v2 n profiles, text)

  abbrev pub save : Calls → Text → Files → Result (TocheConfig × Text) → Result ConfigSource × Files
  save io old files (err e) = (err e, files)
  save io old files (ok (config, text)) = save_migrated io config old text files

  unfoldable pub detect_and_load : Calls → Files → Result ConfigSource × Files
  unfolding load_v2 save_migrated migrated
  detect_and_load io files = elim files.config [
    | some text ↦ (load_v2 toml io text, files)
    | none ↦ elim files.profiles [
      | none ↦ (ok missing, files)
      | some old ↦ save io old files (migrated io old)
    ]
  ]

  abbrev loaded : Result ConfigSource → Result TocheConfig
  loaded (err e) = err (codes "Failed to load configuration")
  loaded (ok (v2 config)) = ok config
  loaded (ok (v1_migrated config)) = ok config
  loaded (ok missing) = err (codes "No configuration found. Run `toche setup` first.")

  unfoldable pub load_config : Calls → Files → Result TocheConfig × Files
  unfolding detect_and_load
  load_config io files = let (source, files') = detect_and_load io files in (loaded source, files')

  abbrev resolved_from : Host → Result TocheConfig → Result ResolvedIntegration
  resolved_from host (err e) = err e
  resolved_from host (ok config) = elim (resolve_default host config) [
    | none ↦ err (codes "No default integration configured")
    | some r ↦ ok r
  ]

  unfoldable pub load_default_integration :
      Host → Calls → Files → Result ResolvedIntegration × Files
  unfolding load_config
  load_default_integration host io files =
      let (config, files') = load_config io files in (resolved_from host config, files')
