-- ===== src/Reduce/Transform/Choices.antt =====
-- src/reduce/transform.rs: which tool results are bypassed, and which filter is chosen.
use toche.Prelude.{
  ◌∙◌, ◌∙◌, codes, sym, List, [], ◌∷◌, ◌++◌, none, some, Bool, true, not, Text, ◌≡◌, find, all,
  arith, refl, ap, Bool-cases, inl, inr,
}
use toche.Config.Types.{ReduceConfig}
use toche.Reduce.Filter.{CompiledFilter, find_filter_in}
use toche.Reduce.Commands.{ToolMap}
use toche.Reduce.Commands.Uses.{Use, IsMapOf, command_of}
use toche.Reduce.Transform.{
  str_field, Env, is_bypassed, literal_name, filter_cmd, filter_for, or_empty,
}
use toche.Reduce.Transform.Steps.{answered, command_for, is_listed, is_unmatched, IsFirst}

-- The first item with a property, with what stands around it.
find_split {ℓ} :
    {A : Type ℓ} (p : A → Bool) (xs : List A) (x : A)
    → find p xs ≡ some x
    → (before : List A) × (after : List A) × (before ++ x ∷ after ≡ xs)
      × (all (λ y. not (p y)) before ≡ true)
      × (p x ≡ true)
find_split p [] x e = cc
find_split p (y ∷ xs) x e = elim (Bool-cases (p y)) [
  | inl fits ↦
      let same : y ≡ x = ground (arith, fits) in
      ([], xs, ap (λ z. z ∷ xs) (sym same), refl, rw (sym same) fits)
  | inr off ↦
      let (before, after, position, earlier, fits) = find_split p xs x (ground (arith, off)) in
      (y ∷ before, after, ap (λ zs. y ∷ zs) position, rw (off, earlier) refl, fits)
]

find-none {ℓ} :
    {A : Type ℓ} (p : A → Bool) (xs : List A) → find p xs ≡ none → all (λ y. not (p y)) xs ≡ true
find-none p [] e = refl
find-none p (y ∷ xs) e = ground (arith, find-none p xs)

module _ (env : Env) where
  open env use {json, api, filters, match_set}
  open json use {Value}

  pub literal_name-answered :
      (calls : ToolMap json) (uses : List (Use json)) (b : Value)
      → IsMapOf json calls uses
      → literal_name env calls b ≡ answered env uses b
  unfolding literal_name
  literal_name-answered calls uses b agree = ap or_empty (agree.names _)

  pub filter_cmd-command_for :
      (calls : ToolMap json) (uses : List (Use json)) (b : Value)
      → IsMapOf json calls uses
      → filter_cmd env calls b ≡ command_for env uses b
  unfolding filter_cmd
  filter_cmd-command_for calls uses b agree =
      let id = or_empty (str_field json (codes "tool_use_id") b) in
      ap (λ o. elim o [ none ↦ literal_name env calls b | some cmd ↦ cmd ]) (agree.commands id)
      ∙ ap (λ name. elim (command_of json id uses) [ none ↦ name | some cmd ↦ cmd ])
          (literal_name-answered calls uses b agree)

  pub is_bypassed-is_listed :
      (config : ReduceConfig) (name : Text) → is_bypassed config name ≡ is_listed env config name
  unfolding is_bypassed
  is_bypassed-is_listed config [] = refl
  is_bypassed-is_listed config (c ∷ name) = refl

  pub filter_for-IsFirst :
      (f : CompiledFilter api) (cmd : Text) → filter_for env cmd ≡ some f → IsFirst env f cmd
  unfolding filter_for find_filter_in
  filter_for-IsFirst f [] e = cc
  filter_for-IsFirst f (c ∷ cmd) e = elim (Bool-cases (api.set_is_match match_set (c ∷ cmd))) [
    | inr off ↦ absurd (ground (arith, off))
    | inl on ↦
        let (before, after, position, earlier, fits) =
          find_split (λ (g : CompiledFilter api). api.is_match g.match_regex (c ∷ cmd)) filters f
            (ground (arith, on)) in
        record {
          before = before;
          after = after;
          position = position;
          earlier = earlier;
          fits = fits;
          quick = on;
          given = refl;
        }
  ]

  pub filter_for-is_unmatched :
      (cmd : Text) → filter_for env cmd ≡ none → is_unmatched env cmd ≡ true
  unfolding filter_for find_filter_in
  filter_for-is_unmatched [] e = refl
  filter_for-is_unmatched (c ∷ cmd) e = elim (Bool-cases (api.set_is_match match_set (c ∷ cmd))) [
    | inr off ↦ ground (arith, off)
    | inl on ↦ ground (
      arith,
      on,
      find-none (λ (g : CompiledFilter api). api.is_match g.match_regex (c ∷ cmd)) filters,
    )
  ]
