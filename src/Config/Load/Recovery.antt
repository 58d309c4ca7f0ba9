-- ===== src/Config/Load/Recovery.antt =====
-- src/config/migration.rs: a migration that was broken off is taken up by the next run.
use toche.Prelude.{
  ◌&&◌, if◌then◌else◌, ◌&&◌, Option, none, some, true, Text, ok, ◌≡◌, ◌⊎◌, inl, inr, refl,
  Bool-cases,
}
use toche.Config.Types.{Naming}
use toche.Config.Profiles.{ProfileSet}
use toche.Config.Migration.{migrate_v1_to_v2}
use toche.Config.Load.{
  Files, Calls, Toml, v2, v1_migrated, load_v2, put_aside, save_migrated, migrated, detect_and_load,
}

module _ (n : Naming) (toml : Toml) where
  -- The text of the old profiles is in one of the two old files.
  abbrev pub IsSafe : Text → Files → Type 0
  IsSafe old files = (files.profiles ≡ some old) ⊎ (files.backup ≡ some old)

  abbrev pub fine : Calls
  fine = record { reads = true; writes = true; moves = true }

  abbrev pub at_first : Text → Files
  at_first old = record { config = none; profiles = some old; backup = none }

  -- A run on the new file.
  load_written :
      (text : Text) (profiles : ProfileSet) (p k : Option Text)
      → toml.config_from_str text ≡ ok (migrate_v1_to_v2 n profiles)
      → let files : Files = record { config = some text; profiles = p; backup = k } in
        detect_and_load n toml fine files ≡ (ok (v2 (migrate_v1_to_v2 n profiles)), files)
  unfolding detect_and_load load_v2 migrate_v1_to_v2
  load_written text profiles p k back = rw back refl

  -- What a first run leaves: the files as they were, or the new file, with the text of the old one in
  -- its place or in the backup.
  migrate_once :
      (io : Calls) (old text : Text) (profiles : ProfileSet)
      → toml.profiles_from_str old ≡ ok profiles
      → toml.to_string_pretty (migrate_v1_to_v2 n profiles) ≡ ok text
      → (detect_and_load n toml io (at_first old)).1 ≡ (
          if io.reads && io.writes
          then (if io.moves
              then record { config = some text; profiles = none; backup = some old }
              else record { config = some text; profiles = some old; backup = none })
          else at_first old)
  unfolding detect_and_load save_migrated put_aside migrated
  migrate_once io old text profiles read printed = elim (Bool-cases io.reads) [
    | inr unread ↦ rw unread refl
    | inl reads ↦ elim (Bool-cases io.writes) [
      | inr unwritten ↦ rw (reads, read, printed, unwritten) refl
      | inl writes ↦ elim (Bool-cases io.moves) [
        | inr unmoved ↦ rw (reads, read, printed, writes, unmoved) refl
        | inl moved ↦ rw (reads, read, printed, writes, moved) refl
      ]
    ]
  ]

  -- Whether a run on the files gives the migrated configuration and keeps the text of the old file.
  abbrev pub GivesMigrated : Text → ProfileSet → Files → Type 0
  GivesMigrated old profiles files =
      (((detect_and_load n toml fine files).0 ≡ ok (v2 (migrate_v1_to_v2 n profiles)))
        ⊎ ((detect_and_load n toml fine files).0 ≡ ok (v1_migrated (migrate_v1_to_v2 n profiles))))
      × IsSafe old (detect_and_load n toml fine files).1

  from_start :
      (old text : Text) (profiles : ProfileSet)
      → toml.profiles_from_str old ≡ ok profiles
      → toml.to_string_pretty (migrate_v1_to_v2 n profiles) ≡ ok text
      → GivesMigrated old profiles (at_first old)
  unfolding detect_and_load save_migrated put_aside migrated
  from_start old text profiles read printed = rw (read, printed) (inr refl, inr refl)

  from_written :
      (old text : Text) (profiles : ProfileSet) (p k : Option Text)
      → toml.config_from_str text ≡ ok (migrate_v1_to_v2 n profiles)
      → (p ≡ some old) ⊎ (k ≡ some old)
      → GivesMigrated old profiles (record { config = some text; profiles = p; backup = k })
  from_written old text profiles p k back safe =
      rw (load_written text profiles p k back) (inl refl, safe)

  -- Where the old file holds profiles that can be read, whose migration can be printed and is read
  -- back from what was printed, and neither a new file nor a backup is there, a run followed by a run
  -- whose calls all succeed gives the migrated configuration, whatever calls of the first run fail;
  -- the text of the old file is not lost.
  pub detect_and_load_twice :
      (first : Calls) (old text : Text) (profiles : ProfileSet)
      → toml.profiles_from_str old ≡ ok profiles
      → toml.to_string_pretty (migrate_v1_to_v2 n profiles) ≡ ok text
      → toml.config_from_str text ≡ ok (migrate_v1_to_v2 n profiles)
      → GivesMigrated old profiles (detect_and_load n toml first (at_first old)).1
  detect_and_load_twice first old text profiles read printed back =
      rw (migrate_once first old text profiles read printed)
        (elim (Bool-cases (first.reads && first.writes)) [
          | inr broken ↦ rw broken (from_start old text profiles read printed)
          | inl done ↦ elim (Bool-cases first.moves) [
            | inl moved ↦
                rw (done, moved) (from_written old text profiles none (some old) back (inr refl))
            | inr unmoved ↦
                rw (done, unmoved) (from_written old text profiles (some old) none back (inl refl))
          ]
        ])
