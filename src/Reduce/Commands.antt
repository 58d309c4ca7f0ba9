-- ===== src/Reduce/Commands.antt =====
-- src/reduce/transform.rs: the command that a tool call runs, and the maps from the calls of a
-- request to their names and commands.
pub mod Wrappers
pub mod Uses
use toche.Prelude.{
  and_then, ◌==◌, ℕ, zero, suc, List, [], ◌∷◌, ◌++◌, Option, none, some, Bool, true, false, Text,
  text_eq, codes, if◌then◌else◌, length, ◌≡◌, ◌≢◌, ◌⊎◌, ◌<◌, ◌≤◌, arith,
}
use toche.Prelude.Maps.{Map, insert}
use toche.Prelude.Texts.{trim_start}
use toche.Json.{Json}
use toche.Json.Arrays.{array_field, str_field}

-- `str::strip_prefix`
unfoldable pub strip_prefix : Text → Text → Option Text
strip_prefix [] t = some t
strip_prefix (x ∷ p) [] = none
strip_prefix (x ∷ p) (y ∷ t) = let rest = strip_prefix p t in if x == y then rest else none

-- `str::trim_start_matches`: as long as the text starts with the pattern, of which each round takes
-- one off.
unfoldable pub trim_rounds : ℕ → Text → Text → Text
trim_rounds zero p t = t
trim_rounds (suc n) p t = elim (strip_prefix p t) [ none ↦ t | some rest ↦ trim_rounds n p rest ]

unfoldable pub trim_start_matches : Text → Text → Text
unfolding trim_rounds
trim_start_matches p t = trim_rounds (length t) p t

-- The command line without the wrappers before it.
unfoldable pub unwrapped : Text → Text
unfolding trim_start trim_start_matches
unwrapped raw =
    trim_start_matches (codes "rtk ") (trim_start_matches (codes "sudo ") (trim_start raw))

abbrev pub non_empty : Text → Option Text
non_empty [] = none
non_empty (c ∷ t) = some (c ∷ t)

module _ (json : Json) where
  open json use {Value, get, as_str}

  unfoldable pub resolve_command : Text → Value → Option Text
  unfolding unwrapped
  resolve_command tool_name input =
      if text_eq tool_name (codes "Bash")
      then and_then (get (codes "input") input)
          (λ i. and_then (str_field json (codes "command") i) (λ raw. non_empty (unwrapped raw)))
      else none

  -- The names and the effective commands, by the ids of the calls.
  pub record ToolMap : Type 0 where
    pub tool_name : Map Text
    pub effective_cmd : Map Text

  abbrev pub is_field : Text → Text → Value → Bool
  is_field k t v = elim (str_field json k v) [ none ↦ false | some s ↦ text_eq s t ]

  -- One call, with its id and its name.
  unfoldable pub add_call : Text → Text → Value → ToolMap → ToolMap
  unfolding resolve_command
  add_call id name block m = record {
    tool_name = insert id name m.tool_name;
    effective_cmd = elim (resolve_command name block) [
      | none ↦ m.effective_cmd
      | some cmd ↦ insert id cmd m.effective_cmd
    ];
  }

  unfoldable pub add_block : Value → ToolMap → ToolMap
  unfolding add_call
  add_block block m =
      if is_field (codes "type") (codes "tool_use") block
      then elim (str_field json (codes "id") block) [
        | none ↦ m
        | some id ↦ elim (str_field json (codes "name") block) [
          | none ↦ m
          | some name ↦ add_call id name block m
        ]
      ]
      else m

  unfoldable pub add_blocks : List Value → ToolMap → ToolMap
  add_blocks [] m = m
  add_blocks (block ∷ blocks) m = add_blocks blocks (add_block block m)

  unfoldable pub add_messages : List Value → ToolMap → ToolMap
  unfolding add_blocks
  add_messages [] m = m
  add_messages (msg ∷ msgs) m = add_messages msgs (
      if is_field (codes "role") (codes "assistant") msg
      then elim (array_field json (codes "content") msg) [
        | none ↦ m
        | some content ↦ add_blocks content m
      ]
      else m)

  unfoldable pub build_tool_map : Value → ToolMap
  unfolding add_messages
  build_tool_map root =
      let nothing : ToolMap = record { tool_name = []; effective_cmd = [] } in
      elim (array_field json (codes "messages") root) [
        | none ↦ nothing
        | some msgs ↦ add_messages msgs nothing
      ]
