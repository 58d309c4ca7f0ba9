-- ===== src/Reduce/Contents/Replacement.antt =====
-- src/reduce/transform.rs: what a tool result says after its content was replaced.
use toche.Prelude.{
  text_ne, sym, ℕ, zero, suc, ◌-◌, List, [], ◌∷◌, ◌++◌, Option, none, some, true, false, Text,
  text_eq, codes, if◌then◌else◌, ◌≡◌, arith, Option-cases, Bool-cases, inl, inr, ap, ◌∙◌, refl,
  append-nil, append_assoc,
}
use toche.Json.{Json}
use toche.Json.Arrays.{str_field}
use toche.Efficiency.Inject.{text_block}
use toche.Reduce.Contents.{
  has_kind, gather, push_line, blank_parts, replace_parts, with_text, replaced, text_of,
  replace_content, extract_text_content,
}

-- One line break for each part of text after the first.
unfoldable pub line_breaks : ℕ → Text
line_breaks zero = []
line_breaks (suc n) = 10 ∷ line_breaks n

module _ (json : Json) where
  open json use {Value, get, set, as_str, as_array, array, string, is_object}

  unfoldable pub text_parts : List Value → ℕ
  text_parts [] = 0
  text_parts (part ∷ parts) =
      let n = text_parts parts in if has_kind json (codes "text") part then suc n else n

  kind_object : (kind : Text) (v : Value) → has_kind json kind v ≡ true → is_object v ≡ true
  unfolding has_kind str_field
  kind_object kind v h = elim (Bool-cases (is_object v)) [
    | inl yes_object ↦ yes_object
    | inr no_object ↦ ground (arith, json.get_no_object (codes "type") v no_object)
  ]

  has_kind-with_text :
      (t : Text) (v : Value)
      → has_kind json (codes "text") (with_text json t v) ≡ has_kind json (codes "text") v
  unfolding has_kind str_field text_eq
  has_kind-with_text t v =
      rw
        (
          json.get-set_ne (codes "text") (codes "type") (string t) v
              (text_ne (codes "text") (codes "type") refl),
          has_kind,
          str_field,
        )
        refl

  str_field-with_text :
      (t : Text) (v : Value)
      → is_object v ≡ true
      → str_field json (codes "text") (with_text json t v) ≡ some t
  unfolding str_field
  str_field-with_text t v o =
      rw (json.get-set_self (codes "text") (string t) v o) (json.as_str-string t)

  gather_text :
      (text t : Text) (part : Value) (parts : List Value)
      → has_kind json (codes "text") part ≡ true
      → str_field json (codes "text") part ≡ some t
      → gather json text (part ∷ parts) ≡ gather json (push_line text t) parts
  unfolding gather
  gather_text text t part parts k s = rw (k, s) refl

  gather_other :
      (text : Text) (part : Value) (parts : List Value)
      → has_kind json (codes "text") part ≡ false
      → gather json text (part ∷ parts) ≡ gather json text parts
  unfolding gather
  gather_other text part parts k = rw k refl

  gather-with_text :
      (text t : Text) (part : Value) (parts : List Value)
      → has_kind json (codes "text") part ≡ true
      → gather json text (with_text json t part ∷ parts) ≡ gather json (push_line text t) parts
  gather-with_text text t part parts k =
      gather_text text t (with_text json t part) parts (has_kind-with_text t part ∙ k)
        (str_field-with_text t part (kind_object (codes "text") part k))

  gather-blank_parts :
      (c : ℕ) (t : Text) (parts : List Value)
      → gather json (c ∷ t) (blank_parts json parts) ≡ (c ∷ t) ++ line_breaks (text_parts parts)
  unfolding blank_parts gather line_breaks text_parts push_line
  gather-blank_parts c t [] = sym (append-nil (c ∷ t))
  gather-blank_parts c t (part ∷ parts) = elim (Bool-cases (has_kind json (codes "text") part)) [
    | inl k ↦
        rw (k, gather-with_text (c ∷ t) [] part (blank_parts json parts) k)
          (gather-blank_parts c (t ++ 10 ∷ []) parts
            ∙ ap (λ r. c ∷ r) (append_assoc t (10 ∷ []) (line_breaks (text_parts parts))))
    | inr k ↦
        rw (k, gather_other (c ∷ t) part (blank_parts json parts) k) (gather-blank_parts c t parts)
  ]

  has_kind-text_block : (t : Text) → has_kind json (codes "text") (text_block json t) ≡ true
  unfolding text_block text_eq has_kind str_field
  has_kind-text_block t =
      let rest : List (Text × Value) = (codes "text", string t) ∷ [] in
      let untyped : get (codes "type") (json.object rest) ≡ none =
        json.get-object_ne (codes "text") (codes "type") (string t) []
          (text_ne (codes "text") (codes "type") refl)
        ∙ json.get-object_nil (codes "type") in
      rw
        (
          json.get-object_self (codes "type") (string (codes "text")) rest untyped,
          json.as_str-string (codes "text"),
          has_kind,
          str_field,
        )
        refl

  str_field-text_block : (t : Text) → str_field json (codes "text") (text_block json t) ≡ some t
  unfolding text_block text_eq str_field
  str_field-text_block t =
      let rest : List (Text × Value) = (codes "text", string t) ∷ [] in
      let there =
        json.get-object_self (codes "text") (string t) [] (json.get-object_nil (codes "text")) in
      rw
        (
          json.get-object_ne (codes "type") (codes "text") (string (codes "text")) rest
              (text_ne (codes "type") (codes "text") refl),
          there,
          str_field,
        )
        (json.as_str-string t)

  gather_replaced :
      (c : ℕ) (t : Text) (parts : List Value)
      → gather json [] (replace_parts json (c ∷ t) parts)
        ≡ (c ∷ t) ++ line_breaks (text_parts parts - 1)
  unfolding replace_parts text_parts gather push_line line_breaks
  gather_replaced c t [] =
      gather_text [] (c ∷ t) (text_block json (c ∷ t)) [] (has_kind-text_block (c ∷ t))
        (str_field-text_block (c ∷ t))
      ∙ sym (append-nil (c ∷ t))
  gather_replaced c t (part ∷ parts) = elim (Bool-cases (has_kind json (codes "text") part)) [
    | inl k ↦
        rw (k, gather-with_text [] (c ∷ t) part (blank_parts json parts) k)
          (gather-blank_parts c t parts ∙ ap (λ n. (c ∷ t) ++ line_breaks n) (omega arith))
    | inr k ↦
        rw (k, gather_other [] part (replace_parts json (c ∷ t) parts) k)
          (gather_replaced c t parts)
  ]

  -- The parts of text that a content has beside the first.
  unfoldable pub spare_parts : Option Value → ℕ
  unfolding text_parts
  spare_parts none = 0
  spare_parts (some content) = elim (as_str content) [
    | some s ↦ 0
    | none ↦ elim (as_array content) [ some parts ↦ text_parts parts - 1 | none ↦ 0 ]
  ]

  text_of_array : (parts : List Value) → text_of json (some (array parts)) ≡ gather json [] parts
  unfolding text_of
  text_of_array parts = rw (json.as_str-array parts, json.as_array-array parts, text_of) refl

  text_of-replaced :
      (c : ℕ) (t : Text) (content : Option Value)
      → text_of json (some (replaced json (c ∷ t) content))
        ≡ (c ∷ t) ++ line_breaks (spare_parts content)
  unfolding text_of replaced spare_parts line_breaks
  text_of-replaced c t none =
      rw (json.as_str-string (c ∷ t), text_of, replaced, spare_parts) (sym (append-nil (c ∷ t)))
  text_of-replaced c t (some content) = elim (Option-cases (as_str content)) [
    | inr (s, e) ↦
        rw (e, json.as_str-string (c ∷ t), text_of, replaced, spare_parts)
          (sym (append-nil (c ∷ t)))
    | inl e ↦ elim (Option-cases (as_array content)) [
      | inl f ↦
          rw (e, f, json.as_str-string (c ∷ t), text_of, replaced, spare_parts)
            (sym (append-nil (c ∷ t)))
      | inr (parts, f) ↦
          let change : replaced json (c ∷ t) (some content)
              ≡ array (replace_parts json (c ∷ t) parts) =
            rw (e, f, replaced) refl in
          ap (λ v. text_of json (some v)) change
          ∙ (text_of_array (replace_parts json (c ∷ t) parts)
              ∙ rw (e, f, spare_parts) (gather_replaced c t parts))
    ]
  ]

  -- The text of a tool result after its content was replaced by a text that is not empty is this
  -- text, behind which stands one line break for each part of text that the content had beside the
  -- first: those parts are emptied, not removed.
  pub extract-replace_content :
      (c : ℕ) (t : Text) (block : Value)
      → is_object block ≡ true
      → extract_text_content json (replace_content json (c ∷ t) block)
        ≡ (c ∷ t) ++ line_breaks (spare_parts (get (codes "content") block))
  unfolding extract_text_content replace_content
  extract-replace_content c t block o =
      ap (text_of json) (
        json.get-set_self (codes "content") (replaced json (c ∷ t) (get (codes "content") block))
          block o)
      ∙ text_of-replaced c t (get (codes "content") block)
