-- ===== src/Claude.antt =====
-- src/integrations/mod.rs and src/integrations/claude/config.rs: connecting Claude Code to the
-- gateway, and disconnecting it. `read_jsonc` is the reading of a file with comment lines, and
-- `to_string_pretty` is serde_json's; both are parameters. A write is atomic.
pub mod Restored
mod Tests
use toche.Prelude.{
  List, [], ◌∷◌, Option, none, some, is_some, Bool, true, false, not, ◌||◌, ◌&&◌, Text, codes, trim,
  Result, ok, err, and_then, if◌then◌else◌,
}
use toche.Json.{Json}
use toche.Json.Arrays.{str_field}
use toche.SafeCache.Inspect.{contains_text}

-- The settings of Claude Code, the backup beside them, and the address that was saved.
pub record Files : Type 0 where
  pub settings : Option Text
  pub backup : Option Text
  pub saved_url : Option Text

-- Whether the calls of one run succeed: the copy to the backup, the writes of the settings, the
-- save of the old address, the removal of the backup and that of the saved address. The outcomes of
-- `saves` and `clears` are not looked at.
pub record Calls : Type 0 where
  pub copies : Bool
  pub writes : Bool
  pub saves : Bool
  pub removes : Bool
  pub clears : Bool

pub data ConnectOutcome : Type 0 where
  already_connected : ConnectOutcome
  connected : Bool → ConnectOutcome

pub data DisconnectOutcome : Type 0 where
  not_connected : DisconnectOutcome
  disconnected : DisconnectOutcome

-- The fragment for the address of the gateway.
abbrev pub base_url : Text
base_url = codes "http://127.0.0.1:8743"

abbrev pub env_anthropic_base_url : Text
env_anthropic_base_url = codes "http://127.0.0.1:8743/v1"

abbrev pub url_key : Text
url_key = codes "ANTHROPIC_BASE_URL"

abbrev is_toche : Option Text → Bool
is_toche none = false
is_toche (some s) = contains_text (codes "127.0.0.1:8743") s

abbrev pub trimmed : Option Text → Option Text
trimmed none = none
trimmed (some t) = some (trim t)

module _ (json : Json) where
  open json use {Value, get, set, unset, string, object, is_object}

  -- `pointer("/env/ANTHROPIC_BASE_URL")`, as a string.
  unfoldable pub env_url : Value → Option Text
  env_url settings = and_then (get (codes "env") settings) (str_field json url_key)

  unfoldable pub points_to_toche : Value → Bool
  unfolding env_url
  points_to_toche settings =
      is_toche (str_field json (codes "baseURL") settings) || is_toche (env_url settings)

  -- A value put into an object; any other value stays.
  abbrev pub insert_into : Text → Value → Value → Value
  insert_into k x v = if is_object v then set k x v else v

  abbrev pub remove_from : Text → Value → Value
  remove_from k v = if is_object v then unset k v else v

  abbrev env_or_new : Option Value → Value
  env_or_new none = object []
  env_or_new (some env) = env

  -- The fragment in the settings, where these are an object.
  unfoldable pub owned : Value → Value
  owned settings =
      let env = env_or_new (get (codes "env") settings) in
      let env' = insert_into url_key (string env_anthropic_base_url) env in
      if is_object settings
      then set (codes "env") env' (set (codes "baseURL") (string base_url) settings)
      else settings

  -- A string put back, or the key removed.
  abbrev pub put_back : Text → Option Text → Value → Value
  put_back k none v = remove_from k v
  put_back k (some url) v = insert_into k (string url) v

  -- `pointer_mut("/env")`, and a change in place.
  abbrev pub in_env : (Value → Value) → Value → Value
  in_env f settings = elim (get (codes "env") settings) [
    | none ↦ settings
    | some env ↦ set (codes "env") (f env) settings
  ]

  unfoldable pub update_env_for_disconnect : Value → Value → Value
  update_env_for_disconnect restored backup = in_env (put_back url_key (env_url backup)) restored

  -- Both addresses of the backup in the current settings.
  unfoldable pub restore : Value → Value → Value
  unfolding update_env_for_disconnect
  restore backup current =
      update_env_for_disconnect
        (put_back (codes "baseURL") (str_field json (codes "baseURL") backup) current) backup

  module _ (read_jsonc : Text → Result Value) (to_string_pretty : Value → Result Text) where
    abbrev read_or_new : Option Text → Result Value
    read_or_new none = ok (object [])
    read_or_new (some text) = read_jsonc text

    abbrev pub back_up : Calls → Files → Option Files
    back_up io files = elim files.settings [
      | none ↦ some files
      | some text ↦ elim files.backup [
        | some old ↦ some files
        | none ↦ if io.copies then some (record files { backup = some text }) else none
      ]
    ]

    abbrev pub save_url : Calls → Option Text → Files → Files
    save_url io none files = files
    save_url io (some url) files = if io.saves then record files { saved_url = some url } else files

    -- The print of the settings, and its write.
    abbrev pub write_settings : Calls → Result Text → Files → Option Files
    write_settings io (err e) files = none
    write_settings io (ok text) files =
        if io.writes then some (record files { settings = some text }) else none

    unfoldable pub apply_to : Calls → Result Value → Files → Result (Option Text) × Files
    unfolding owned points_to_toche
    apply_to io (err e) files = (err (codes "Failed to parse settings.json"), files)
    apply_to io (ok settings) files =
        if points_to_toche settings then (ok none, files) else elim (back_up io files) [
          | none ↦ (err (codes "Failed to backup settings.json"), files)
          | some kept ↦ elim (write_settings io (to_string_pretty (owned settings)) kept) [
            | none ↦ (err (codes "Failed to write settings.json"), kept)
            | some written ↦ (ok (env_url settings), save_url io (env_url settings) written)
          ]
        ]

    unfoldable pub apply_owned_fragment : Calls → Files → Result (Option Text) × Files
    unfolding apply_to
    apply_owned_fragment io files = apply_to io (read_or_new files.settings) files

    abbrev outcome : Result (Option Text) × Files → Result ConnectOutcome × Files
    outcome (err e, files) = (err e, files)
    outcome (ok (some url), files) = (ok (connected (is_some files.backup)), files)
    outcome (ok none, files) = (
      ok (if is_some files.settings then already_connected else connected (is_some files.backup)),
      files,
    )

    abbrev connect_to : Calls → Files → Result Value → Result ConnectOutcome × Files
    connect_to io files (err e) = (err (codes "Failed to parse settings.json"), files)
    connect_to io files (ok current) =
        if points_to_toche current
        then (ok already_connected, files)
        else outcome (apply_owned_fragment io files)

    unfoldable pub connect : Calls → Files → Result ConnectOutcome × Files
    unfolding apply_owned_fragment points_to_toche
    connect io files = elim files.settings [
      | none ↦ outcome (apply_owned_fragment io files)
      | some text ↦ connect_to io files (read_jsonc text)
    ]

    abbrev drop_saved : Calls → Files → Files
    drop_saved io files = if io.clears then record files { saved_url = none } else files

    -- With the backup: the removal of the backup has to succeed.
    unfoldable pub restore_from :
        Calls → Value → Result Value → Files → Result DisconnectOutcome × Files
    unfolding restore
    restore_from io current (err e) files =
        (err (codes "Failed to parse backup settings.json"), files)
    restore_from io current (ok backup) files =
        elim (write_settings io (to_string_pretty (restore backup current)) files) [
          | none ↦ (err (codes "Failed to write settings.json"), files)
          | some written ↦
              if io.removes
              then (ok disconnected, drop_saved io (record written { backup = none }))
              else (err (codes "Failed to remove the backup"), written)
        ]

    -- Without a backup; whether the environment is left empty comes with it.
    unfoldable pub update_env_toche : (Value → Bool) → Value → Option Text → Value × Bool
    unfolding env_url
    update_env_toche is_empty settings saved_url = elim (get (codes "env") settings) [
      | none ↦ (settings, false)
      | some env ↦
          let env' = put_back url_key saved_url env in
          if is_toche (env_url settings) && is_object env
          then (set (codes "env") env' settings, is_empty env')
          else (settings, false)
    ]

    unfoldable pub drop_empty_env : (Value → Bool) → Value → Value
    drop_empty_env is_empty settings = elim (get (codes "env") settings) [
      | none ↦ settings
      | some env ↦
          if is_object env && is_empty env then remove_from (codes "env") settings else settings
    ]

    abbrev text_or_empty : Option Text → Text
    text_or_empty none = []
    text_or_empty (some t) = t

    -- The settings read again, and written without the empty environment.
    unfoldable pub clean_up :
        (Value → Bool) → Calls → Result Value → Files → Result DisconnectOutcome × Files
    unfolding drop_empty_env
    clean_up is_empty io (err e) files = (err (codes "Failed to re-parse settings.json"), files)
    clean_up is_empty io (ok settings) files =
        elim (write_settings io (to_string_pretty (drop_empty_env is_empty settings)) files) [
          | none ↦ (err (codes "Failed to write settings.json"), files)
          | some written ↦ (ok disconnected, drop_saved io written)
        ]

    unfoldable pub remove_structured :
        (Value → Bool) → Calls → Value → Files → Result DisconnectOutcome × Files
    unfolding update_env_toche clean_up
    remove_structured is_empty io current files =
        let (settings, env_empty) =
          update_env_toche is_empty (remove_from (codes "baseURL") current)
            (trimmed files.saved_url) in
        elim (write_settings io (to_string_pretty settings) files) [
          | none ↦ (err (codes "Failed to write settings.json"), files)
          | some written ↦
              if env_empty
              then clean_up is_empty io (read_jsonc (text_or_empty written.settings)) written
              else (ok disconnected, drop_saved io written)
        ]

    abbrev remove_from_current :
        (Value → Bool) → Calls → Files → Result Value → Result DisconnectOutcome × Files
    remove_from_current is_empty io files (err e) =
        (err (codes "Failed to parse settings.json"), files)
    remove_from_current is_empty io files (ok current) =
        if points_to_toche current
        then elim files.backup [
          | some backup ↦ restore_from io current (read_jsonc backup) files
          | none ↦ remove_structured is_empty io current files
        ]
        else (ok not_connected, files)

    unfoldable pub remove_owned_fragment :
        (Value → Bool) → Calls → Files → Result DisconnectOutcome × Files
    unfolding restore_from remove_structured points_to_toche
    remove_owned_fragment is_empty io files = elim files.settings [
      | none ↦ (ok not_connected, files)
      | some text ↦ remove_from_current is_empty io files (read_jsonc text)
    ]
