-- ===== src/Json.antt =====
-- The `serde_json` crate, which the program only calls: its `Value` type and its operations are
-- parameters, and their documented behaviour is stated as laws.
pub mod Arrays
pub mod Example
use toche.Prelude.{
  List, [], ◌∷◌, Option, none, some, Bool, true, false, Text, text_eq, ◌≡◌, ◌≢◌, Result,
  if◌then◌else◌,
}

pub record Json : Type 1 where
  pub Value : Type 0
  pub from_str : Text → Result Value
  pub to_string : Value → Result Text
  -- `value.get(key)`, which finds nothing where the value is no object.
  pub get : Text → Value → Option Value
  pub is_object : Value → Bool
  pub as_str : Value → Option Text
  pub as_bool : Value → Option Bool
  pub as_array : Value → Option (List Value)
  -- An object with a key written, by `insert` or through `get_mut`, or removed by `remove`.
  pub set : Text → Value → Value → Value
  pub unset : Text → Value → Value
  pub array : List Value → Value
  pub string : Text → Value
  pub object : List (Text × Value) → Value
  pub as_array-array : (xs : List Value) → as_array (array xs) ≡ some xs
  pub as_str-string : (t : Text) → as_str (string t) ≡ some t
  pub as_str-array : (xs : List Value) → as_str (array xs) ≡ none
  pub get_no_object : (k : Text) (v : Value) → is_object v ≡ false → get k v ≡ none
  pub is_object-set : (k : Text) (x v : Value) → is_object (set k x v) ≡ is_object v
  pub is_object-unset : (k : Text) (v : Value) → is_object (unset k v) ≡ is_object v
  pub get-set_self : (k : Text) (x v : Value) → is_object v ≡ true → get k (set k x v) ≡ some x
  pub get-set_ne : (k j : Text) (x v : Value) → k ≢ j → get j (set k x v) ≡ get j v
  pub get-unset_self : (k : Text) (v : Value) → get k (unset k v) ≡ none
  pub get-unset_ne : (k j : Text) (v : Value) → k ≢ j → get j (unset k v) ≡ get j v
  pub set-set : (k : Text) (x y v : Value) → set k y (set k x v) ≡ set k y v
  pub set_comm : (k j : Text) (x y v : Value) → k ≢ j → set j y (set k x v) ≡ set k x (set j y v)
  pub unset-set_self : (k : Text) (x v : Value) → unset k (set k x v) ≡ unset k v
  pub unset-set_ne : (k j : Text) (x v : Value) → k ≢ j → unset j (set k x v) ≡ set k x (unset j v)
  -- `json!` with literal keys.
  pub get-object_nil : (k : Text) → get k (object []) ≡ none
  pub get-object_self :
      (k : Text) (v : Value) (fields : List (Text × Value))
      → get k (object fields) ≡ none
      → get k (object ((k, v) ∷ fields)) ≡ some v
  pub get-object_ne :
      (k j : Text) (v : Value) (fields : List (Text × Value))
      → k ≢ j
      → get j (object ((k, v) ∷ fields)) ≡ get j (object fields)
