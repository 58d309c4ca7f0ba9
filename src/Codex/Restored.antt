-- ===== src/Codex/Restored.antt =====
-- src/integrations/codex/config.rs: disconnecting gives back what connecting took.
use toche.Prelude.{
  Option, none, some, true, false, Text, ok, ◌≡◌, ◌≢◌, refl, Option-cases, inl, inr,
}
use toche.Codex.{
  TomlEdit, Calls, points_to_toche, apply_owned_fragment, remove_owned_fragment, write_owned,
  restore_from, restore, disconnected, connect, document, key, codex_upstream_url_from_toml,
}

module _ (toml : TomlEdit) where
  open toml use {Doc, parse, to_string, get}

  abbrev pub fine : Calls
  fine = record { reads = true; copies = true; writes = true; saves = true; removes = true }

  -- The settings with the backup that connecting leaves.
  connect_keeps :
      (content : Text) (url : Option Text) (d : Doc)
      → points_to_toche content ≡ false
      → document toml content ≡ ok d
      → (connect toml fine
          (record { config = some content; backup = none; saved_url = url })).1.backup
        ≡ some content
  unfolding connect apply_owned_fragment write_owned
  connect_keeps content url d free read =
      elim (Option-cases (codex_upstream_url_from_toml content)) [
        | inl none_set ↦ rw (free, read, none_set) refl
        | inr (old, is_set) ↦ rw (free, read, is_set) refl
      ]

  restored :
      (later : Text) (content : Text) (url : Option Text) (d d' : Doc)
      → points_to_toche later ≡ true
      → parse later ≡ ok d'
      → parse content ≡ ok d
      → remove_owned_fragment toml fine
          (record { config = some later; backup = some content; saved_url = url })
        ≡ (
          ok disconnected,
          record {
            config = some (to_string (restore toml (get key d) d'));
            backup = none;
            saved_url = none;
          },
        )
  unfolding remove_owned_fragment restore_from
  restored later content url d d' points read old = rw (points, read, old) refl

  restore-get : (x : Option toml.Item) (d : Doc) → get key (restore toml x d) ≡ x
  restore-get none d = toml.get-remove_self key d
  restore-get (some url) d = toml.get-set_self key url d

  restore-get_ne :
      (x : Option toml.Item) (k : Text) (d : Doc) → key ≢ k → get k (restore toml x d) ≡ get k d
  restore-get_ne none k d n = toml.get-remove_ne key k d n
  restore-get_ne (some url) k d n = toml.get-set_ne key k url d n

  -- Where Codex has settings that can be read, do not mention the gateway and have no backup,
  -- connecting and then disconnecting, with every call successful, gives back the address that the
  -- settings had, or none if they had none, and keeps every other setting as it was before the
  -- disconnection, whatever the user made of the settings in between, as long as they can be read
  -- and mention the gateway. The backup is gone.
  pub connect-remove_owned_fragment :
      (content later : Text) (url : Option Text) (d d' first : Doc) (k : Text)
      → points_to_toche content ≡ false
      → document toml content ≡ ok first
      → parse content ≡ ok d
      → points_to_toche later ≡ true
      → parse later ≡ ok d'
      → key ≢ k
      → let files =
          (connect toml fine
            (record { config = some content; backup = none; saved_url = url })).1 in
        let done = remove_owned_fragment toml fine (record files { config = some later }) in
        (last : Doc) × (done.0 ≡ ok disconnected)
        × (done.1.config ≡ some (to_string last))
        × (done.1.backup ≡ none)
        × (get key last ≡ get key d)
        × (get k last ≡ get k d')
  connect-remove_owned_fragment content later url d d' first k free read old points changed other =
      let files =
        (connect toml fine (record { config = some content; backup = none; saved_url = url })).1 in
      let kept = connect_keeps content url first free read in
      let result = restored later content files.saved_url d d' points changed old in
      (
        restore toml (get key d) d',
        rw (kept, result) refl,
        rw (kept, result) refl,
        rw (kept, result) refl,
        restore-get (get key d) d',
        restore-get_ne (get key d) k d' other,
      )
