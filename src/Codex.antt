-- ===== src/Codex.antt =====
-- src/integrations/codex/config.rs, with the reading of the address in
-- src/integrations/codex/discovery.rs: connecting Codex to the gateway, and disconnecting it. The
-- `toml_edit` crate is an interface. A write is atomic.
pub mod Restored
mod Tests
use toche.Prelude.{
  ℕ, List, [], ◌∷◌, ◌++◌, ◌==◌, ◌||◌, not, ◌&&◌, Option, none, some, is_some, Bool, true, false,
  Text, text_eq, codes, trim, reverse, Result, ok, err, ◌>>=◌, if◌then◌else◌, ◌≡◌, ◌≢◌,
}
use toche.Reduce.Lines.{lines}
use toche.SafeCache.Inspect.{contains_text}

-- A TOML document that keeps its comments. `own` sets a string under the comment of the owner, and
-- `value` is an item that holds a string.
pub record TomlEdit : Type 1 where
  pub Doc : Type 0
  pub Item : Type 0
  pub empty : Doc
  pub parse : Text → Result Doc
  pub to_string : Doc → Text
  pub get : Text → Doc → Option Item
  pub as_str : Item → Option Text
  pub value : Text → Item
  pub own : Text → Text → Doc → Doc
  pub set : Text → Item → Doc → Doc
  pub remove : Text → Doc → Doc
  pub get-set_self : (k : Text) (x : Item) (d : Doc) → get k (set k x d) ≡ some x
  pub get-set_ne : (k j : Text) (x : Item) (d : Doc) → k ≢ j → get j (set k x d) ≡ get j d
  pub get-remove_self : (k : Text) (d : Doc) → get k (remove k d) ≡ none
  pub get-remove_ne : (k j : Text) (d : Doc) → k ≢ j → get j (remove k d) ≡ get j d

-- The settings of Codex, the backup beside them, and the address that was saved.
pub record Files : Type 0 where
  pub config : Option Text
  pub backup : Option Text
  pub saved_url : Option Text

-- Whether the calls of one run succeed; the outcome of the last two is not looked at.
pub record Calls : Type 0 where
  pub reads : Bool
  pub copies : Bool
  pub writes : Bool
  pub saves : Bool
  pub removes : Bool

pub data CodexConnectOutcome : Type 0 where
  already_connected : CodexConnectOutcome
  connected : Bool → CodexConnectOutcome

pub data CodexDisconnectOutcome : Type 0 where
  not_connected : CodexDisconnectOutcome
  disconnected : CodexDisconnectOutcome

unfoldable pub points_to_toche : Text → Bool
points_to_toche content = contains_text (codes "127.0.0.1:8743") content

abbrev pub toche_url : Text
toche_url = codes "http://127.0.0.1:8743/v1"

-- The part of a text before a character, and the part behind it, if it is there.
abbrev before : ℕ → Text → Text
before mark [] = []
before mark (c ∷ t) = let rest = before mark t in if c == mark then [] else c ∷ rest

abbrev behind : ℕ → Text → Option Text
behind mark [] = none
behind mark (c ∷ t) = let rest = behind mark t in if c == mark then some t else rest

abbrev trim_quotes_start : Text → Text
trim_quotes_start [] = []
trim_quotes_start (c ∷ t) =
    let rest = trim_quotes_start t in if c == b'"' || c == b'\'' then rest else c ∷ t

abbrev trim_quotes : Text → Text
trim_quotes t = reverse (trim_quotes_start (reverse (trim_quotes_start t)))

abbrev non_empty : Text → Option Text
non_empty [] = none
non_empty (c ∷ t) = some (c ∷ t)

-- The address that a line sets.
unfoldable pub url_in_line : Text → Option Text
url_in_line line =
    let setting = trim (before b'#' line) in
    elim (behind b'=' setting) [
      | none ↦ none
      | some right ↦
          let key = trim (before b'=' setting) in
          if text_eq key (codes "openai_base_url") || text_eq key (codes "base_url")
          then non_empty (trim_quotes (trim right))
          else none
    ]

unfoldable pub first_url : List Text → Option Text
unfolding url_in_line
first_url [] = none
first_url (line ∷ ls) = elim (url_in_line line) [ some url ↦ some url | none ↦ first_url ls ]

unfoldable pub codex_upstream_url_from_toml : Text → Option Text
unfolding first_url
codex_upstream_url_from_toml content = first_url (lines content)

abbrev pub or_empty : Option Text → Text
or_empty none = []
or_empty (some t) = t

abbrev pub key : Text
key = codes "openai_base_url"

-- The address saved for a recovery, where it was found and could be written.
abbrev pub save_url : Calls → Option Text → Files → Files
save_url io none files = files
save_url io (some url) files = if io.saves then record files { saved_url = some url } else files

-- The backup beside the settings, if there is none; nothing where the copy fails.
abbrev pub back_up : Calls → Files → Option Files
back_up io files = elim files.config [
  | none ↦ some files
  | some content ↦ elim files.backup [
    | some old ↦ some files
    | none ↦ if io.copies then some (record files { backup = some content }) else none
  ]
]

module _ (toml : TomlEdit) where
  open toml use {Doc, Item, parse, to_string, get, set, remove}

  abbrev pub document : Text → Result Doc
  document content = elim (trim content) [ [] ↦ ok toml.empty | c ∷ t ↦ parse content ]

  -- From the parsed settings on.
  unfoldable pub write_owned :
      Calls → Text → Option Text → Result Doc → Files → Result (Option Text) × Files
  write_owned io url original (err e) files =
      (err (codes "Failed to parse Codex config.toml as TOML"), files)
  write_owned io url original (ok doc) files =
      if io.writes
      then (ok original, record files { config = some (to_string (toml.own key url doc)) })
      else (err (codes "Failed to write Codex config.toml"), files)

  unfoldable pub apply_owned_fragment : Calls → Text → Files → Result (Option Text) × Files
  unfolding write_owned
  apply_owned_fragment io url files =
      let content = or_empty files.config in
      if is_some files.config && not io.reads
      then (err (codes "Failed to read Codex config.toml"), files)
      else (if points_to_toche content then (ok none, files) else elim (back_up io files) [
        | none ↦ (err (codes "Failed to backup Codex config.toml"), files)
        | some kept ↦
            let original = codex_upstream_url_from_toml content in
            write_owned io url original (document content) (save_url io original kept)
      ])

  abbrev pub restore : Option Item → Doc → Doc
  restore none d = remove key d
  restore (some url) d = set key url d

  abbrev pub drop_saved : Calls → Files → Files
  drop_saved io files = if io.removes then record files { saved_url = none } else files

  abbrev pub drop_backup : Calls → Files → Files
  drop_backup io files =
      if io.removes then record files { backup = none; saved_url = none } else files

  -- With the backup, of which only the owned key is taken.
  unfoldable pub restore_from :
      Calls → Result Doc → Result Doc → Files → Result CodexDisconnectOutcome × Files
  restore_from io (err e) backup files =
      (err (codes "Failed to parse current Codex config.toml"), files)
  restore_from io (ok current) (err e) files =
      (err (codes "Failed to parse backup Codex config.toml"), files)
  restore_from io (ok current) (ok backup) files =
      if io.writes
      then (
        ok disconnected,
        drop_backup io
            (record files { config = some (to_string (restore (get key backup) current)) }),
      )
      else (err (codes "Failed to write restored Codex config.toml"), files)

  -- Without a backup: the owned address gives way to the one that was saved.
  abbrev pub give_back : Option Text → Doc → Doc
  give_back saved d = elim (get key d) [
    | none ↦ d
    | some item ↦
        if contains_text (codes "127.0.0.1:8743") (or_empty (toml.as_str item))
        then elim saved [ some original ↦ set key (toml.value original) d | none ↦ remove key d ]
        else d
  ]

  unfoldable pub remove_structured :
      Calls → Result Doc → Files → Result CodexDisconnectOutcome × Files
  remove_structured io (err e) files = (err (codes "Failed to parse Codex config.toml"), files)
  remove_structured io (ok doc) files =
      let saved : Option Text = elim files.saved_url [ none ↦ none | some url ↦ some (trim url) ] in
      if io.writes
      then (
        ok disconnected,
        drop_saved io (record files { config = some (to_string (give_back saved doc)) }),
      )
      else (err (codes "Failed to write Codex config.toml after disconnect"), files)

  unfoldable pub remove_owned_fragment : Calls → Files → Result CodexDisconnectOutcome × Files
  unfolding restore_from remove_structured
  remove_owned_fragment io files = elim files.config [
    | none ↦ (ok not_connected, files)
    | some content ↦
        if not io.reads
        then (err (codes "Failed to read Codex config.toml"), files)
        else (if points_to_toche content
            then elim files.backup [
              | some backup ↦ restore_from io (parse content) (parse backup) files
              | none ↦ remove_structured io (parse content) files
            ]
            else (ok not_connected, files))
  ]

  abbrev outcome : Result (Option Text) × Files → Result CodexConnectOutcome × Files
  outcome (err e, files) = (err e, files)
  outcome (ok (some url), files) = (ok (connected (is_some files.backup)), files)
  outcome (ok none, files) = (
    ok (if is_some files.config then already_connected else connected (is_some files.backup)),
    files,
  )

  unfoldable pub connect : Calls → Files → Result CodexConnectOutcome × Files
  unfolding apply_owned_fragment
  connect io files = elim files.config [
    | none ↦ outcome (apply_owned_fragment io toche_url files)
    | some content ↦
        if not io.reads
        then (err (codes "Failed to read Codex config.toml"), files)
        else (if points_to_toche content
            then (ok already_connected, files)
            else outcome (apply_owned_fragment io toche_url files))
  ]
