-- ===== src/Claude/Tests.antt =====
-- Settings of Claude Code with an address and a model, before and after the user changed them.
use toche.Prelude.{
  [], ◌∷◌, Text, codes, refl, ok, none, some, ◌≡◌, text_eq, text_ne, Result, if◌then◌else◌,
}
use toche.Json.{Json}
use toche.Json.Arrays.{str_field}
use toche.Json.Example.{example_json, Value}
use toche.Claude.{
  false, base_url, env_anthropic_base_url, url_key, points_to_toche, restore, connect, env_url,
  remove_owned_fragment, disconnected,
}
use toche.Claude.Restored.{fine, connect-restore}

abbrev json : Json
json = example_json (λ t. ok (Value.str t)) (λ v. ok (codes "{}"))

abbrev settings : Value
settings = json.object (
    (codes "baseURL", json.string (codes "http://a"))
    ∷ (codes "env", json.object ((url_key, json.string (codes "http://b")) ∷ []))
    ∷ [])

abbrev env : Value
env = json.object (
    (url_key, json.string env_anthropic_base_url) ∷ (codes "PATH", json.string (codes "/bin")) ∷ [])

abbrev current : Value
current = json.object (
    (codes "baseURL", json.string base_url)
    ∷ (codes "model", json.string (codes "m"))
    ∷ (codes "env", env)
    ∷ [])

-- The files as texts, and which settings each of them holds.
abbrev text : Text
text = codes "before"

abbrev later : Text
later = codes "later"

abbrev read_jsonc : Text → Result Value
read_jsonc t = if text_eq t text then ok settings else ok current

abbrev to_string_pretty : Value → Result Text
to_string_pretty v = ok (codes "printed")

connect-restore_example :
    let connected =
      (connect json read_jsonc to_string_pretty fine
        (record { settings = some text; backup = none; saved_url = none })).1 in
    let done =
      remove_owned_fragment json read_jsonc to_string_pretty
        (λ v. false)
        fine
        (record connected { settings = some later }) in
    let left = restore json settings current in
    (done ≡ (
      ok disconnected,
      record { settings = some (codes "printed"); backup = none; saved_url = none },
    ))
    × (str_field json (codes "baseURL") left ≡ str_field json (codes "baseURL") settings)
    × (env_url json left ≡ env_url json settings)
    × (json.get (codes "model") left ≡ json.get (codes "model") current)
    × ((e : Value) × (json.get (codes "env") left ≡ some e)
        × (json.get (codes "PATH") e ≡ json.get (codes "PATH") env))
unfolding text_eq points_to_toche str_field
connect-restore_example =
    connect-restore json read_jsonc to_string_pretty (λ v. false) text later (codes "printed")
      (codes "printed") settings current env (codes "model") (codes "PATH") refl refl refl refl refl
      refl refl refl refl (text_ne (codes "baseURL") (codes "model") refl)
      (text_ne (codes "env") (codes "model") refl) (text_ne url_key (codes "PATH") refl)
