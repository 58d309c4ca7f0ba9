-- ===== src/Cache/Inject.antt =====
-- src/cache/inject.rs
use toche.Prelude.{
  ℕ, zero, suc, List, [], ◌∷◌, Option, none, some, Text, codes, Result, ok, ◌>>=◌, map_err,
  if◌then◌else◌,
}
use toche.Json.{Json}
use toche.Json.Arrays.{update_array}
use toche.Cache.Breakpoint.{BreakpointPlan, has_breakpoints}

-- A change of the element at an index through `get_mut`; none out of range.
abbrev pub modify_at {ℓ} : {A : Type ℓ} → ℕ → (A → A) → List A → List A
modify_at i f [] = []
modify_at zero f (x ∷ xs) = f x ∷ xs
modify_at (suc i) f (x ∷ xs) = x ∷ modify_at i f xs

module _ (json : Json) where
  open json use {Value}

  unfoldable pub cache_control : Value
  cache_control = json.object ((codes "type", json.string (codes "ephemeral")) ∷ [])

  -- A block that is no object is left as it is.
  unfoldable pub mark : Value → Value
  unfolding cache_control
  mark block =
      if json.is_object block then json.set (codes "cache_control") cache_control block else block

  unfoldable pub mark_message : ℕ → Value → Value
  unfolding mark
  mark_message block_idx = update_array json (codes "content") (modify_at block_idx mark)

  unfoldable pub mark_messages : List (ℕ × ℕ) → List Value → List Value
  unfolding mark_message
  mark_messages [] messages = messages
  mark_messages ((msg_idx, block_idx) ∷ rest) messages =
      mark_messages rest (modify_at msg_idx (mark_message block_idx) messages)

  unfoldable pub mark_system : Option ℕ → Value → Value
  unfolding mark
  mark_system none root = root
  mark_system (some idx) root = update_array json (codes "system") (modify_at idx mark) root

  unfoldable pub inject_value : BreakpointPlan → Value → Value
  unfolding mark_system mark_messages
  inject_value plan root =
      update_array json (codes "messages") (mark_messages plan.message_blocks)
        (mark_system plan.system_block_index root)

  unfoldable pub inject_cache_control : Text → BreakpointPlan → Result Text
  inject_cache_control original_body plan =
      if has_breakpoints plan
      then (do
        root ← map_err (codes "Failed to parse body: ") (json.from_str original_body)
        map_err (codes "Failed to serialize modified body: ")
            (json.to_string (inject_value plan root)))
      else ok original_body
