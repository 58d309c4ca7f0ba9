-- ===== src/Efficiency/Prompt.antt =====
-- src/efficiency/inject.rs: what an injection does to the system prompt.
use toche.Prelude.{
  List, [], ◌∷◌, ◌++◌, Option, none, some, true, Text, codes, ◌≡◌, ◌≢◌, ◌⊎◌, inl, inr, refl, ap,
  ◌∙◌, arith, Option-cases, Bool-cases,
}
use toche.Json.{Json}
use toche.Efficiency.Inject.{text_block, extend_system}

module _ (json : Json) where
  open json use {Value, get, set, array, as_array, as_str, is_object}

  -- The system prompt as a list of blocks: a string counts as one block of text.
  unfoldable pub prompt_of : Option Value → Option (List Value)
  prompt_of none = none
  prompt_of (some system) = elim (as_array system) [
    | some blocks ↦ some blocks
    | none ↦ elim (as_str system) [ some t ↦ some (text_block json t ∷ []) | none ↦ none ]
  ]

  unfoldable pub prompt : Value → Option (List Value)
  unfolding prompt_of
  prompt root = prompt_of (get (codes "system") root)

  prompt_of_array : (blocks : List Value) → prompt_of (some (array blocks)) ≡ some blocks
  unfolding prompt_of
  prompt_of_array blocks = rw (prompt_of, json.as_array-array blocks) refl

  prompt-set :
      (blocks : List Value) (root : Value)
      → is_object root ≡ true
      → prompt (set (codes "system") (array blocks) root) ≡ some blocks
  unfolding prompt
  prompt-set blocks root o =
      ap prompt_of (json.get-set_self (codes "system") (array blocks) root o)
      ∙ prompt_of_array blocks

  has_object :
      (root system : Value) → get (codes "system") root ≡ some system → is_object root ≡ true
  has_object root system e = elim (Bool-cases (is_object root)) [
    | inl yes_object ↦ yes_object
    | inr no_object ↦ ground (arith, json.get_no_object (codes "system") root no_object)
  ]

  -- An injection into a request without a system prompt changes nothing. Otherwise it puts its block
  -- behind those of the prompt, where a string counts as one block of text, and leaves every other
  -- field as it was.
  pub extend_system-prompt :
      (block root : Value) (k : Text)
      → codes "system" ≢ k
      → ((extend_system json block root ≡ none) × (prompt root ≡ none))
        ⊎ ((changed : Value) × (blocks : List Value) × (extend_system json block root
              ≡ some changed)
            × (prompt root ≡ some blocks)
            × (prompt changed ≡ some (blocks ++ block ∷ []))
            × (get k changed ≡ get k root))
  unfolding extend_system prompt prompt_of
  extend_system-prompt block root k other = elim (Option-cases (get (codes "system") root)) [
    | inl absent ↦ inl (ground (arith, absent), ground (arith, absent))
    | inr (system, there) ↦ elim (Option-cases (as_array system)) [
      | inr (blocks, listed) ↦
          let bs = blocks ++ block ∷ [] in
          inr (
            set (codes "system") (array bs) root,
            blocks,
            ground (arith, there, listed),
            ground (arith, there, listed),
            prompt-set bs root (has_object root system there),
            json.get-set_ne (codes "system") k (array bs) root other,
          )
      | inl unlisted ↦ elim (Option-cases (as_str system)) [
        | inl neither ↦
            inl (ground (arith, there, unlisted, neither), ground (arith, there, unlisted, neither))
        | inr (t, spelled) ↦
            let bs = text_block json t ∷ block ∷ [] in
            inr (
              set (codes "system") (array bs) root,
              text_block json t ∷ [],
              ground (arith, there, unlisted, spelled),
              ground (arith, there, unlisted, spelled),
              prompt-set bs root (has_object root system there),
              json.get-set_ne (codes "system") k (array bs) root other,
            )
      ]
    ]
  ]
