-- ===== src/Reduce/Contents.antt =====
-- src/reduce/transform.rs: the text of a tool result, and its replacement.
pub mod Replacement
use toche.Prelude.{
  ℕ, List, [], ◌∷◌, ◌++◌, Option, none, some, Bool, true, false, Text, text_eq, codes,
  if◌then◌else◌, ◌≡◌, is_some,
}
use toche.Json.{Json}
use toche.Json.Arrays.{array_field, str_field, update_array}
use toche.Efficiency.Inject.{text_block}

-- A line break stands before what follows a text that is not empty.
unfoldable pub push_line : Text → Text → Text
push_line [] t = t
push_line (c ∷ text) t = (c ∷ text) ++ (10 ∷ t)

module _ (json : Json) where
  open json use {Value, get, set, as_str, as_array, array, string}

  -- `part.get("type").and_then(Value::as_str) == Some(kind)`
  unfoldable pub has_kind : Text → Value → Bool
  has_kind kind v = elim (str_field json (codes "type") v) [
    | none ↦ false
    | some s ↦ text_eq s kind
  ]

  unfoldable pub gather : Text → List Value → Text
  unfolding has_kind push_line
  gather text [] = text
  gather text (part ∷ parts) =
      let plain = gather text parts in
      if has_kind (codes "text") part
      then elim (str_field json (codes "text") part) [
        | none ↦ plain
        | some t ↦ gather (push_line text t) parts
      ]
      else plain

  unfoldable pub text_of : Option Value → Text
  unfolding gather
  text_of none = []
  text_of (some content) = elim (as_str content) [
    | some s ↦ s
    | none ↦ elim (as_array content) [ some parts ↦ gather [] parts | none ↦ [] ]
  ]

  unfoldable pub extract_text_content : Value → Text
  unfolding text_of
  extract_text_content block = text_of (get (codes "content") block)

  abbrev pub with_text : Text → Value → Value
  with_text t part = set (codes "text") (string t) part

  -- The parts after the first that holds text.
  unfoldable pub blank_parts : List Value → List Value
  unfolding has_kind
  blank_parts [] = []
  blank_parts (part ∷ parts) =
      (if has_kind (codes "text") part then with_text [] part else part) ∷ blank_parts parts

  unfoldable pub replace_parts : Text → List Value → List Value
  unfolding has_kind blank_parts text_block
  replace_parts t [] = text_block json t ∷ []
  replace_parts t (part ∷ parts) =
      let later = replace_parts t parts in
      if has_kind (codes "text") part then with_text t part ∷ blank_parts parts else part ∷ later

  unfoldable pub replaced : Text → Option Value → Value
  unfolding replace_parts
  replaced t none = string t
  replaced t (some content) = elim (as_str content) [
    | some s ↦ string t
    | none ↦ elim (as_array content) [
      | some parts ↦ array (replace_parts t parts)
      | none ↦ string t
    ]
  ]

  unfoldable pub replace_content : Text → Value → Value
  unfolding replaced
  replace_content t block = set (codes "content") (replaced t (get (codes "content") block)) block
