-- ===== src/Cache/Breakpoint.antt =====
-- src/cache/breakpoint.rs
use toche.Prelude.{
  ℕ, suc, List, [], ◌∷◌, Option, none, some, is_some, Bool, true, false, not, ◌&&◌, ◌||◌, Text,
  text_eq, codes, length, any, Result, ok, ◌>>=◌, map_err,
}
use toche.Json.{Json}
use toche.Json.Arrays.{array_field, str_field}

pub data CacheBreakpoint : Type 0 where
  standard system_only : CacheBreakpoint

pub record BreakpointPlan : Type 0 where
  pub system_block_index : Option ℕ
  pub message_blocks : List (ℕ × ℕ)

abbrev is_empty {ℓ} : {A : Type ℓ} → List A → Bool
is_empty [] = true
is_empty (x ∷ xs) = false

unfoldable pub has_breakpoints : BreakpointPlan → Bool
has_breakpoints plan = is_some plan.system_block_index || not (is_empty plan.message_blocks)

-- The index of the last element; nothing for the empty list.
abbrev pub last_index {ℓ} : {A : Type ℓ} → List A → Option ℕ
last_index [] = none
last_index (x ∷ xs) = some (length xs)

module _ (json : Json) where
  open json use {Value}

  abbrev pub text_is : Option Text → Text → Bool
  text_is none t = false
  text_is (some s) t = text_eq s t

  unfoldable pub has_type : Text → Value → Bool
  has_type t block = text_is (str_field json (codes "type") block) t

  unfoldable pub has_role : Text → Value → Bool
  has_role t msg = text_is (str_field json (codes "role") msg) t

  -- `is_tool_use || is_tool_result`
  unfoldable pub is_tool_interaction : Value → List Value → Bool
  unfolding has_role has_type
  is_tool_interaction msg content =
      (has_role (codes "assistant") msg && any (has_type (codes "tool_use")) content)
      || (has_role (codes "user") msg && any (has_type (codes "tool_result")) content)

  -- The content blocks of a message; none for a message that the loop skips.
  abbrev or_empty : Option (List Value) → List Value
  or_empty none = []
  or_empty (some xs) = xs

  unfoldable pub content_blocks : Value → List Value
  content_blocks msg = or_empty (array_field json (codes "content") msg)

  -- The loop over the messages, from the index `mi` on.
  unfoldable pub walk : ℕ → List Value → Option (ℕ × ℕ) → Option (ℕ × ℕ)
  walk mi [] found = found
  walk mi (msg ∷ msgs) found = elim (content_blocks msg) [
    | [] ↦ walk (suc mi) msgs found
    | block ∷ blocks ↦ elim (is_tool_interaction msg (block ∷ blocks)) [
      | true ↦ found
      | false ↦ walk (suc mi) msgs (some (mi, length blocks))
    ]
  ]

  abbrev pub singleton {ℓ} : {A : Type ℓ} → Option A → List A
  singleton none = []
  singleton (some a) = a ∷ []

  abbrev bind_last : Option (List Value) → Option ℕ
  bind_last none = none
  bind_last (some xs) = last_index xs

  unfoldable pub plan_for : Value → CacheBreakpoint → BreakpointPlan
  plan_for root policy =
      let system = bind_last (array_field json (codes "system") root) in
      elim policy [
        | system_only ↦ record { system_block_index = system; message_blocks = [] }
        | standard ↦ elim (array_field json (codes "messages") root) [
          | none ↦ record { system_block_index = system; message_blocks = [] }
          | some messages ↦ record {
            system_block_index = system;
            message_blocks = singleton (walk 0 messages none);
          }
        ]
      ]

  unfoldable pub find_breakpoints : Text → CacheBreakpoint → Result BreakpointPlan
  unfolding plan_for
  find_breakpoints body policy = do
    root ← map_err (codes "Failed to parse request body: ") (json.from_str body)
    ok (plan_for root policy)
