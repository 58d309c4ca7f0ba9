-- ===== src/Codex/Tests.antt =====
-- Settings of Codex with an address and a model, as functions on keys.
use toche.Prelude.{
  Option, none, some, Text, text_eq, text_eq_refl, text_eq_iff, codes, trim, ok, ◌≡◌, refl, arith,
  if◌then◌else◌, text_ne,
}
use toche.Codex.{TomlEdit, points_to_toche, remove_owned_fragment, connect, disconnected, key}
use toche.Codex.Restored.{fine, connect-remove_owned_fragment}

abbrev Doc : Type 0
Doc = Text → Option Text

abbrev put : Text → Option Text → Doc → Doc
put k x d j = if text_eq k j then x else d j

abbrev content : Text
content = codes "openai_base_url = 'http://a'"

abbrev later : Text
later = codes "openai_base_url = 'http://127.0.0.1:8743/v1'\nmodel = 'm'"

abbrev settings : Doc
settings = put key (some (codes "http://a")) (λ k. none)

abbrev edited : Doc
edited =
    put (codes "model") (some (codes "m"))
      (put key (some (codes "http://127.0.0.1:8743/v1")) (λ k. none))

abbrev toml : TomlEdit
toml = record {
  Doc = Doc;
  Item = Text;
  empty = λ k. none;
  parse = λ t. if text_eq t content then ok settings else ok edited;
  to_string = λ d. later;
  get = λ k d. d k;
  as_str = λ x. some x;
  value = λ t. t;
  own = λ k url. put k (some url);
  set = λ k x. put k (some x);
  remove = λ k. put k none;
  get-set_self = λ k x d. ground (arith, text_eq_refl k);
  get-set_ne = λ k j x d n. ground (arith, text_eq_iff k j);
  get-remove_self = λ k d. ground (arith, text_eq_refl k);
  get-remove_ne = λ k j d n. ground (arith, text_eq_iff k j);
}

connect-remove_owned_fragment_example :
    let files =
      (connect toml
        (fine toml)
        (record { config = some content; backup = none; saved_url = none })).1 in
    let done = remove_owned_fragment toml (fine toml) (record files { config = some later }) in
    (last : Doc) × (done.0 ≡ ok disconnected)
    × (done.1.config ≡ some later)
    × (done.1.backup ≡ none)
    × (last key ≡ settings key)
    × (last (codes "model") ≡ edited (codes "model"))
unfolding text_eq points_to_toche trim
connect-remove_owned_fragment_example =
    connect-remove_owned_fragment toml content later none settings edited settings (codes "model")
      refl refl refl refl refl (text_ne key (codes "model") refl)
