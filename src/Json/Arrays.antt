-- ===== src/Json/Arrays.antt =====
-- Walking into the arrays of an object: `root.get("k")` as an array, and its change in place.
use toche.Prelude.{
  List, Option, none, some, Option-cases, inl, inr, true, Bool-cases, Text, ◌≡◌, ◌≢◌, sym, ◌∙◌, ap,
  arith,
}
use mathlib.Core.Path.{fun_ext}
use toche.Json.{Json}

module _ (json : Json) where
  open json use {Value, get, set, unset, array, as_array, is_object}

  abbrev pub bind_array : Option Value → Option (List Value)
  bind_array none = none
  bind_array (some v) = as_array v

  -- `value.get(key).and_then(Value::as_array)`
  unfoldable pub array_field : Text → Value → Option (List Value)
  array_field k v = bind_array (get k v)

  abbrev bind_str : Option Value → Option Text
  bind_str none = none
  bind_str (some v) = json.as_str v

  -- `value.get(key).and_then(Value::as_str)`
  unfoldable pub str_field : Text → Value → Option Text
  str_field k v = bind_str (get k v)

  -- `if let Some(Value::Array(xs)) = value.get_mut(key)`, and a change of `xs` in place.
  unfoldable pub update_array : Text → (List Value → List Value) → Value → Value
  update_array k f v = elim (array_field k v) [ none ↦ v | some xs ↦ set k (array (f xs)) v ]

  field_object :
      (k : Text) (v : Value) (xs : List Value) → array_field k v ≡ some xs → is_object v ≡ true
  unfolding array_field
  field_object k v xs e = elim (Bool-cases (is_object v)) [
    | inl yes_object ↦ yes_object
    | inr no_object ↦ ground (arith, json.get_no_object k v no_object)
  ]

  array_field-set_self :
      (k : Text) (xs : List Value) (v : Value)
      → is_object v ≡ true
      → array_field k (set k (array xs) v) ≡ some xs
  unfolding array_field
  array_field-set_self k xs v o = rw (json.get-set_self k (array xs) v o) (json.as_array-array xs)

  array_field-set_ne :
      (k j : Text) (x v : Value) → k ≢ j → array_field j (set k x v) ≡ array_field j v
  unfolding array_field
  array_field-set_ne k j x v n = rw (json.get-set_ne k j x v n)

  pub array_field-unset_ne :
      (k j : Text) (v : Value) → k ≢ j → array_field j (unset k v) ≡ array_field j v
  unfolding array_field
  array_field-unset_ne k j v n = rw (json.get-unset_ne k j v n)

  -- What a field holds after its array, or that of another field, was changed.
  pub array_field-update_self :
      (k : Text) (f : List Value → List Value) (v : Value) (xs : List Value)
      → array_field k v ≡ some xs
      → array_field k (update_array k f v) ≡ some (f xs)
  unfolding update_array
  array_field-update_self k f v xs e =
      rw (e, update_array) (array_field-set_self k (f xs) v (field_object k v xs e))

  pub array_field-update_ne :
      (k j : Text) (f : List Value → List Value) (v : Value)
      → k ≢ j
      → array_field j (update_array k f v) ≡ array_field j v
  unfolding update_array
  array_field-update_ne k j f v n = elim (Option-cases (array_field k v)) [
    | inl e ↦ rw (e, update_array)
    | inr (xs, e) ↦ rw (e, update_array) (array_field-set_ne k j (array (f xs)) v n)
  ]

  update_none :
      (k : Text) (f : List Value → List Value) (v : Value)
      → array_field k v ≡ none
      → update_array k f v ≡ v
  unfolding update_array
  update_none k f v e = rw (e, update_array)

  update_some :
      (k : Text) (f : List Value → List Value) (v : Value) (xs : List Value)
      → array_field k v ≡ some xs
      → update_array k f v ≡ set k (array (f xs)) v
  unfolding update_array
  update_some k f v xs e = rw (e, update_array)

  -- Two changes of one array are one.
  pub update-update :
      (k : Text) (f g : List Value → List Value) (v : Value)
      → update_array k g (update_array k f v) ≡ update_array k (λ xs. g (f xs)) v
  update-update k f g v = elim (Option-cases (array_field k v)) [
    | inl e ↦
        ap (update_array k g) (update_none k f v e)
        ∙ (update_none k g v e ∙ sym (update_none k (λ xs. g (f xs)) v e))
    | inr (xs, e) ↦
        update_some k g (update_array k f v) (f xs) (array_field-update_self k f v xs e)
        ∙ (ap (set k (array (g (f xs)))) (update_some k f v xs e)
            ∙ (json.set-set k (array (f xs)) (array (g (f xs))) v
                ∙ sym (update_some k (λ ys. g (f ys)) v xs e)))
  ]

  -- Changes of two fields do not meet.
  pub update_comm :
      (k j : Text) (f g : List Value → List Value) (v : Value)
      → k ≢ j
      → update_array j g (update_array k f v) ≡ update_array k f (update_array j g v)
  update_comm k j f g v n = elim (Option-cases (array_field k v)) [
    | inl e ↦
        ap (update_array j g) (update_none k f v e)
        ∙ sym (
            update_none k f (update_array j g v)
              (array_field-update_ne j k g v (λ h. n (sym h)) ∙ e))
    | inr (xs, e) ↦ elim (Option-cases (array_field j v)) [
      | inl e' ↦
          update_none j g (update_array k f v) (array_field-update_ne k j f v n ∙ e')
          ∙ sym (ap (update_array k f) (update_none j g v e'))
      | inr (ys, e') ↦
          update_some j g (update_array k f v) ys (array_field-update_ne k j f v n ∙ e')
          ∙ (ap (set j (array (g ys))) (update_some k f v xs e)
              ∙ (json.set_comm k j (array (f xs)) (array (g ys)) v n
                  ∙ sym (
                      update_some k f (update_array j g v) xs
                        (array_field-update_ne j k g v (λ h. n (sym h)) ∙ e)
                      ∙ ap (set k (array (f xs))) (update_some j g v ys e'))))
    ]
  ]

  pub unset-update :
      (k j : Text) (f : List Value → List Value) (v : Value)
      → k ≢ j
      → unset j (update_array k f v) ≡ update_array k f (unset j v)
  unset-update k j f v n = elim (Option-cases (array_field k v)) [
    | inl e ↦
        ap (unset j) (update_none k f v e)
        ∙ sym (update_none k f (unset j v) (array_field-unset_ne j k v (λ h. n (sym h)) ∙ e))
    | inr (xs, e) ↦
        ap (unset j) (update_some k f v xs e)
        ∙ (json.unset-set_ne k j (array (f xs)) v n
            ∙ sym
                (update_some k f (unset j v) xs (array_field-unset_ne j k v (λ h. n (sym h)) ∙ e)))
  ]

  -- Two changes that agree on every array are the same.
  pub update_ext :
      (k : Text) (f g : List Value → List Value) (v : Value)
      → ((xs : List Value) → f xs ≡ g xs)
      → update_array k f v ≡ update_array k g v
  update_ext k f g v h = ap (λ c. update_array k c v) (fun_ext h)

  pub is_object-update :
      (k : Text) (f : List Value → List Value) (v : Value)
      → is_object (update_array k f v) ≡ is_object v
  unfolding update_array
  is_object-update k f v = elim (Option-cases (array_field k v)) [
    | inl e ↦ rw (e, update_array)
    | inr (xs, e) ↦ rw (e, update_array) (json.is_object-set k (array (f xs)) v)
  ]
