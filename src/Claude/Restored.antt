-- ===== src/Claude/Restored.antt =====
-- src/integrations/mod.rs: disconnecting gives back what connecting took.
use toche.Prelude.{
  Option, none, some, Option-cases, Bool-cases, inl, inr, true, false, Bool, Text, codes, ◌≡◌, ◌≢◌,
  refl, Result, ok, err, ap, ◌∙◌, text_ne, text_eq,
}
use toche.Json.{Json}
use toche.Json.Arrays.{str_field}
use toche.Claude.{
  outcome, Files, Calls, disconnected, url_key, env_url, points_to_toche, put_back, in_env,
  update_env_for_disconnect, restore, connect, apply_owned_fragment, apply_to, restore_from,
  remove_owned_fragment, owned,
}

abbrev pub fine : Calls
fine = record { copies = true; writes = true; saves = true; removes = true; clears = true }

module _ (json : Json) where
  open json use {Value, get, is_object}

  str_field-put_back :
      (k : Text) (x : Option Text) (v : Value)
      → is_object v ≡ true
      → str_field json k (put_back json k x v) ≡ x
  unfolding str_field
  str_field-put_back k none v o = rw (o, json.get-unset_self k v) refl
  str_field-put_back k (some url) v o =
      rw (o, json.get-set_self k (json.string url) v o) (json.as_str-string url)

  get-put_back_ne :
      (k j : Text) (x : Option Text) (v : Value) → k ≢ j → get j (put_back json k x v) ≡ get j v
  get-put_back_ne k j none v n = elim (Bool-cases (is_object v)) [
    | inl o ↦ rw o (json.get-unset_ne k j v n)
    | inr o ↦ rw o refl
  ]
  get-put_back_ne k j (some url) v n = elim (Bool-cases (is_object v)) [
    | inl o ↦ rw o (json.get-set_ne k j (json.string url) v n)
    | inr o ↦ rw o refl
  ]

  is_object-put_back :
      (k : Text) (x : Option Text) (v : Value) → is_object (put_back json k x v) ≡ is_object v
  is_object-put_back k none v = elim (Bool-cases (is_object v)) [
    | inl o ↦ rw o (json.is_object-unset k v ∙ o)
    | inr o ↦ rw o o
  ]
  is_object-put_back k (some url) v = elim (Bool-cases (is_object v)) [
    | inl o ↦ rw o (json.is_object-set k (json.string url) v ∙ o)
    | inr o ↦ rw o o
  ]

  in_env-set :
      (f : Value → Value) (env v : Value)
      → get (codes "env") v ≡ some env
      → in_env json f v ≡ json.set (codes "env") (f env) v
  in_env-set f env v there = rw (in_env, there) refl

  str_field-set_env :
      (e v : Value)
      → str_field json (codes "baseURL") (json.set (codes "env") e v)
        ≡ str_field json (codes "baseURL") v
  unfolding str_field text_eq
  str_field-set_env e v =
      rw
        (
          json.get-set_ne (codes "env") (codes "baseURL") e v
              (text_ne (codes "env") (codes "baseURL") refl),
          str_field,
        )
        refl

  env_url-set_env :
      (e v : Value)
      → is_object v ≡ true
      → env_url json (json.set (codes "env") e v) ≡ str_field json url_key e
  unfolding env_url
  env_url-set_env e v o = rw (json.get-set_self (codes "env") e v o, env_url) refl

  -- What the settings hold after both addresses of a backup were put back.
  restored_addresses :
      (backup current env : Value) (k : Text)
      → get (codes "env") current ≡ some env
      → is_object current ≡ true
      → is_object env ≡ true
      → codes "baseURL" ≢ k
      → codes "env" ≢ k
      → (str_field json (codes "baseURL") (restore json backup current)
          ≡ str_field json (codes "baseURL") backup)
        × (env_url json (restore json backup current) ≡ env_url json backup)
        × (get k (restore json backup current) ≡ get k current)
        × ((e' : Value) × (get (codes "env") (restore json backup current) ≡ some e')
            × ((j : Text) → url_key ≢ j → get j e' ≡ get j env))
  unfolding restore update_env_for_disconnect text_eq
  restored_addresses backup current env k there o o' n n' =
      let x = str_field json (codes "baseURL") backup in
      let v = put_back json (codes "baseURL") x current in
      let y = env_url json backup in
      let e = put_back json url_key y env in
      let ov : is_object v ≡ true = is_object-put_back (codes "baseURL") x current ∙ o in
      let whole : restore json backup current ≡ json.set (codes "env") e v =
        in_env-set (put_back json url_key y) env v (
          get-put_back_ne (codes "baseURL") (codes "env") x current
            (text_ne (codes "baseURL") (codes "env") refl)
          ∙ there) in
      (
        ap (str_field json (codes "baseURL")) whole
            ∙ (str_field-set_env e v ∙ str_field-put_back (codes "baseURL") x current o),
        ap (env_url json) whole ∙ (env_url-set_env e v ov ∙ str_field-put_back url_key y env o'),
        ap (get k) whole
            ∙ (json.get-set_ne (codes "env") k e v n'
                ∙ get-put_back_ne (codes "baseURL") k x current n),
        (
          e,
          ap (get (codes "env")) whole ∙ json.get-set_self (codes "env") e v ov,
          λ j other. get-put_back_ne url_key j y env other,
        ),
      )

  module _ (read_jsonc : Text → Result Value) (to_string_pretty : Value → Result Text) where
    apply_to_keeps :
        (text printed : Text) (settings : Value)
        → points_to_toche json settings ≡ false
        → to_string_pretty (owned json settings) ≡ ok printed
        → (apply_to json read_jsonc to_string_pretty fine
            (ok settings)
            (record { settings = some text; backup = none; saved_url = none })).1.backup
          ≡ some text
    unfolding apply_to
    apply_to_keeps text printed settings free print = elim (Option-cases (env_url json settings)) [
      | inl unset_ ↦ rw (free, print, unset_) refl
      | inr (url, is_set) ↦ rw (free, print, is_set) refl
    ]

    outcome-backup :
        (r : Result (Option Text) × Files)
        → (outcome json read_jsonc to_string_pretty r).1.backup ≡ r.1.backup
    outcome-backup (err e, files) = refl
    outcome-backup (ok none, files) = refl
    outcome-backup (ok (some url), files) = refl

    apply_owned_fragment-read :
        (text : Text) (r : Result Value)
        → read_jsonc text ≡ r
        → apply_owned_fragment json read_jsonc to_string_pretty fine
            (record { settings = some text; backup = none; saved_url = none })
          ≡ apply_to json read_jsonc to_string_pretty fine r
              (record { settings = some text; backup = none; saved_url = none })
    unfolding apply_owned_fragment
    apply_owned_fragment-read text r read =
        ap
          (λ x.
            apply_to json read_jsonc to_string_pretty fine x
              (record { settings = some text; backup = none; saved_url = none }))
          read

    -- The backup that connecting leaves.
    connect_keeps :
        (text printed : Text) (settings : Value)
        → read_jsonc text ≡ ok settings
        → points_to_toche json settings ≡ false
        → to_string_pretty (owned json settings) ≡ ok printed
        → (connect json read_jsonc to_string_pretty fine
            (record { settings = some text; backup = none; saved_url = none })).1.backup
          ≡ some text
    unfolding connect
    connect_keeps text printed settings read free print =
        rw (read, free)
          (outcome-backup (
              apply_owned_fragment json read_jsonc to_string_pretty fine
                (record { settings = some text; backup = none; saved_url = none }))
            ∙ (ap (λ r. r.1.backup) (apply_owned_fragment-read text (ok settings) read)
                ∙ apply_to_keeps text printed settings free print))

    disconnect_restores :
        (is_empty : Value → Bool) (later text : Text) (url : Option Text) (current backup : Value)
        → (printed : Text) → read_jsonc later ≡ ok current
        → points_to_toche json current ≡ true
        → read_jsonc text ≡ ok backup
        → to_string_pretty (restore json backup current) ≡ ok printed
        → remove_owned_fragment json read_jsonc to_string_pretty is_empty fine
            (record { settings = some later; backup = some text; saved_url = url })
          ≡ (ok disconnected, record { settings = some printed; backup = none; saved_url = none })
    unfolding remove_owned_fragment restore_from
    disconnect_restores is_empty later text url current backup printed read points old print =
        rw (read, points, old, restore_from, print) refl

    -- Where Claude Code has settings that can be read, do not point to the gateway and have no
    -- backup, connecting and then disconnecting, with every call and every print successful, gives
    -- back both addresses, or none where there was none, and keeps every other setting, and every
    -- other entry of the environment, as it was before the disconnection, whatever the user made of
    -- the settings in between, as long as they can be read, point to the gateway and are an object
    -- with an object for the environment. The backup is gone.
    pub connect-restore :
        (is_empty : Value → Bool) (text later first last : Text) (settings current env : Value)
        → (k j : Text) → read_jsonc text ≡ ok settings
        → points_to_toche json settings ≡ false
        → to_string_pretty (owned json settings) ≡ ok first
        → read_jsonc later ≡ ok current
        → points_to_toche json current ≡ true
        → is_object current ≡ true
        → get (codes "env") current ≡ some env
        → is_object env ≡ true
        → to_string_pretty (restore json settings current) ≡ ok last
        → codes "baseURL" ≢ k
        → codes "env" ≢ k
        → url_key ≢ j
        → let connected =
            (connect json read_jsonc to_string_pretty fine
              (record { settings = some text; backup = none; saved_url = none })).1 in
          let done =
            remove_owned_fragment json read_jsonc to_string_pretty is_empty fine
              (record connected { settings = some later }) in
          let left = restore json settings current in
          (done
            ≡ (ok disconnected, record { settings = some last; backup = none; saved_url = none }))
          × (str_field json (codes "baseURL") left ≡ str_field json (codes "baseURL") settings)
          × (env_url json left ≡ env_url json settings)
          × (get k left ≡ get k current)
          × ((e : Value) × (get (codes "env") left ≡ some e) × (get j e ≡ get j env))
    connect-restore is_empty text later first last settings current env k j read free print again
          points o there o' reprint n n' m =
        let connected =
          (connect json read_jsonc to_string_pretty fine
            (record { settings = some text; backup = none; saved_url = none })).1 in
        let kept = connect_keeps text first settings read free print in
        let result =
          disconnect_restores is_empty later text connected.saved_url current settings last again
            points read reprint in
        let (url, env_address, other, (e, is_there, kept_in)) =
          restored_addresses settings current env k there o o' n n' in
        (rw kept result, url, env_address, other, (e, is_there, kept_in j m))
