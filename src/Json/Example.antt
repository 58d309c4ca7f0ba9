-- ===== src/Json/Example.antt =====
-- A concrete type of JSON values on which the laws of `Json` hold: an object tells for each key
-- whether it is there, and what it holds. Parsing and printing are left to the user.
use toche.Prelude.{
  List, [], ◌∷◌, Option, none, some, Bool, true, false, Text, text_eq, text_eq_iff, text_eq_refl,
  ◌≡◌, ◌≢◌, refl, ap, arith, Result, if◌then◌else◌,
}
use mathlib.Core.Path.{fun_ext, ap₂}
use toche.Json.{Json}

mutual
  pub data Value : Type 0 where
    null : Value
    str : Text → Value
    truth : Bool → Value
    arr : Values → Value
    obj : (Text → Bool) → (Text → Value) → Value

  pub data Values : Type 0 where
    nil : Values
    cons : Value → Values → Values

abbrev pub of_list : List Value → Values
of_list [] = nil
of_list (x ∷ xs) = cons x (of_list xs)

abbrev pub to_list : Values → List Value
to_list nil = []
to_list (cons x xs) = x ∷ to_list xs

pub to_list-of_list : (xs : List Value) → to_list (of_list xs) ≡ xs
to_list-of_list [] = refl
to_list-of_list (x ∷ xs) = ap (λ ys. x ∷ ys) (to_list-of_list xs)

abbrev pub get : Text → Value → Option Value
get k (obj there at) = if there k then some (at k) else none
get k _ = none

abbrev pub is_object : Value → Bool
is_object (obj there at) = true
is_object _ = false

abbrev pub as_str : Value → Option Text
as_str (str t) = some t
as_str _ = none

abbrev pub as_bool : Value → Option Bool
as_bool (truth b) = some b
as_bool _ = none

abbrev pub as_array : Value → Option (List Value)
as_array (arr xs) = some (to_list xs)
as_array _ = none

-- A function changed at one key.
abbrev pub update {ℓ} : {A : Type ℓ} → Text → A → (Text → A) → Text → A
update k a f j = if text_eq k j then a else f j

abbrev pub set : Text → Value → Value → Value
set k x (obj there at) = obj (update k true there) (update k x at)
set k x v = v

abbrev pub unset : Text → Value → Value
unset k (obj there at) = obj (update k false there) (update k null at)
unset k v = v

abbrev empty : Value
empty = obj (λ k. false) (λ k. null)

abbrev pub object : List (Text × Value) → Value
object [] = empty
object ((k, v) ∷ fields) = set k v (object fields)

module _ {ℓ} {A : Type ℓ} where
  update-update : (k : Text) (a b : A) (f : Text → A) → update k b (update k a f) ≡ update k b f
  update-update k a b f = fun_ext λ j. ground arith

  update_comm :
      (k j : Text) (a b : A) (f : Text → A)
      → k ≢ j
      → update j b (update k a f) ≡ update k a (update j b f)
  update_comm k j a b f n = fun_ext λ i. ground (arith, text_eq_iff k i, text_eq_iff j i)

pub get_no_object : (k : Text) (v : Value) → is_object v ≡ false → get k v ≡ none
get_no_object k (obj there at) h = cc
get_no_object k v h = refl

pub is_object-set : (k : Text) (x v : Value) → is_object (set k x v) ≡ is_object v
is_object-set k x (obj there at) = refl
is_object-set k x v = refl

pub is_object-unset : (k : Text) (v : Value) → is_object (unset k v) ≡ is_object v
is_object-unset k (obj there at) = refl
is_object-unset k v = refl

pub get-set_self : (k : Text) (x v : Value) → is_object v ≡ true → get k (set k x v) ≡ some x
get-set_self k x (obj there at) h = ground (arith, text_eq_refl k)
get-set_self k x v h = cc

pub get-set_ne : (k j : Text) (x v : Value) → k ≢ j → get j (set k x v) ≡ get j v
get-set_ne k j x (obj there at) n = ground (arith, text_eq_iff k j)
get-set_ne k j x v n = refl

pub get-unset_self : (k : Text) (v : Value) → get k (unset k v) ≡ none
get-unset_self k (obj there at) = ground (arith, text_eq_refl k)
get-unset_self k v = refl

pub get-unset_ne : (k j : Text) (v : Value) → k ≢ j → get j (unset k v) ≡ get j v
get-unset_ne k j (obj there at) n = ground (arith, text_eq_iff k j)
get-unset_ne k j v n = refl

pub set-set : (k : Text) (x y v : Value) → set k y (set k x v) ≡ set k y v
set-set k x y (obj there at) = ap₂ obj (update-update k true true there) (update-update k x y at)
set-set k x y v = refl

pub set_comm : (k j : Text) (x y v : Value) → k ≢ j → set j y (set k x v) ≡ set k x (set j y v)
set_comm k j x y (obj there at) n =
    ap₂ obj (update_comm k j true true there n) (update_comm k j x y at n)
set_comm k j x y v n = refl

pub unset-set_self : (k : Text) (x v : Value) → unset k (set k x v) ≡ unset k v
unset-set_self k x (obj there at) =
    ap₂ obj (update-update k true false there) (update-update k x null at)
unset-set_self k x v = refl

pub unset-set_ne : (k j : Text) (x v : Value) → k ≢ j → unset j (set k x v) ≡ set k x (unset j v)
unset-set_ne k j x (obj there at) n =
    ap₂ obj (update_comm k j true false there n) (update_comm k j x null at n)
unset-set_ne k j x v n = refl

is_object-object : (fields : List (Text × Value)) → is_object (object fields) ≡ true
is_object-object [] = refl
is_object-object ((k, v) ∷ fields) =
    rw (is_object-set k v (object fields)) (is_object-object fields)

pub get-object_self :
    (k : Text) (v : Value) (fields : List (Text × Value))
    → get k (object fields) ≡ none
    → get k (object ((k, v) ∷ fields)) ≡ some v
get-object_self k v fields h = get-set_self k v (object fields) (is_object-object fields)

abbrev pub example_json : (Text → Result Value) → (Value → Result Text) → Json
example_json parse print = record {
  Value = Value;
  from_str = parse;
  to_string = print;
  get = get;
  is_object = is_object;
  as_str = as_str;
  as_bool = as_bool;
  as_array = as_array;
  set = set;
  unset = unset;
  array = λ xs. arr (of_list xs);
  string = str;
  object = object;
  as_array-array = λ xs. ap some (to_list-of_list xs);
  as_str-string = λ t. refl;
  as_str-array = λ xs. refl;
  get_no_object = get_no_object;
  is_object-set = is_object-set;
  is_object-unset = is_object-unset;
  get-set_self = get-set_self;
  get-set_ne = get-set_ne;
  get-unset_self = get-unset_self;
  get-unset_ne = get-unset_ne;
  set-set = set-set;
  set_comm = set_comm;
  unset-set_self = unset-set_self;
  unset-set_ne = unset-set_ne;
  get-object_nil = λ k. refl;
  get-object_self = get-object_self;
  get-object_ne = λ k j v fields n. get-set_ne k j v (object fields) n;
}
