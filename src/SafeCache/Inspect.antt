-- ===== src/SafeCache/Inspect.antt =====
-- src/safe_cache/inspect.rs: whether a response may be cached and replayed. Its bytes stand as the
-- text that `from_utf8_lossy` makes of them, which is empty only where they are.
use toche.Prelude.{
  ℕ, suc, List, [], ◌∷◌, ◌++◌, Option, none, some, Bool, true, false, ◌&&◌, ◌||◌, Text, text_eq,
  codes, if◌then◌else◌, any, ltb, ◌==◌, Result, ok, err,
}
use toche.Json.{Json}
use toche.Json.Arrays.{array_field, str_field}
use toche.Cache.Breakpoint.{has_type, text_is}
use toche.Reduce.Lines.{decimal, lines}

pub record SafetyVerdict : Type 0 where
  pub safe : Bool
  pub reason : Text
  pub tool_use_count : ℕ

abbrev pub unsafe_because : Text → ℕ → SafetyVerdict
unsafe_because reason n = record { safe = false; reason = reason; tool_use_count = n }

-- `str::starts_with`, `str::contains` and `str::strip_prefix`
abbrev pub starts_with : Text → Text → Bool
starts_with [] text = true
starts_with (c ∷ prefix) [] = false
starts_with (c ∷ prefix) (d ∷ text) = c == d && starts_with prefix text

abbrev pub contains_text : Text → Text → Bool
contains_text part [] = starts_with part []
contains_text part (c ∷ text) = starts_with part (c ∷ text) || contains_text part text

abbrev pub strip_prefix : Text → Text → Option Text
strip_prefix [] text = some text
strip_prefix (c ∷ prefix) [] = none
strip_prefix (c ∷ prefix) (d ∷ text) = if c == d then strip_prefix prefix text else none

abbrev pub starts_tool_use : Text → Bool
starts_tool_use = contains_text (codes "\"content_block\":{\"type\":\"tool_use\"")

abbrev pub stops_for_tool_use : Text → Bool
stops_for_tool_use = contains_text (codes "\"stop_reason\":\"tool_use\"")

-- The data of the event lines, without the end mark.
unfoldable pub event_data : List Text → List Text
event_data [] = []
event_data (line ∷ ls) =
    let later = event_data ls in
    elim (strip_prefix (codes "data: ") line) [
      | none ↦ later
      | some data_ ↦ if text_eq data_ (codes "[DONE]") then later else data_ ∷ later
    ]

abbrev pub is_empty {ℓ} : {A : Type ℓ} → List A → Bool
is_empty [] = true
is_empty (x ∷ xs) = false

abbrev pub count_if {ℓ} : {A : Type ℓ} → (A → Bool) → List A → ℕ
count_if p [] = 0
count_if p (x ∷ xs) = if p x then suc (count_if p xs) else count_if p xs

unfoldable pub inspect_sse : Text → SafetyVerdict
unfolding event_data
inspect_sse text =
    let found = event_data (lines text) in
    let tool_use_count = count_if starts_tool_use found in
    if ltb 0 tool_use_count
    then unsafe_because
        (codes "SSE response contains " ++ (decimal tool_use_count ++ codes " tool_use block(s)"))
        tool_use_count
    else (if any stops_for_tool_use found
        then unsafe_because (codes "stop_reason is tool_use") 0
        else (if contains_text (codes "\"type\":\"text\"") text
            then record { safe = true; reason = []; tool_use_count = 0 }
            else unsafe_because (codes "SSE response format not recognized as safe") 0))

module _ (json : Json) where
  open json use {Value}

  -- The verdict on a response without content blocks.
  unfoldable pub inspect_contentless : Option Text → SafetyVerdict
  inspect_contentless none = unsafe_because (codes "unrecognized response format") 0
  inspect_contentless (some t) =
      if text_eq t (codes "message_start")
        || (text_eq t (codes "content_block_start") || text_eq t (codes "ping"))
      then unsafe_because (codes "non-cacheable event type: Some(\"" ++ (t ++ codes "\")")) 0
      else unsafe_because (codes "unrecognized response format") 0

  -- The verdict on a parsed response, by its content blocks, whether it stopped for a tool use, and
  -- its type.
  unfoldable pub inspect_content : Option (List Value) → Bool → Option Text → SafetyVerdict
  unfolding inspect_contentless
  inspect_content none stops type =
      if stops then unsafe_because (codes "stop_reason is tool_use") 0 else inspect_contentless type
  inspect_content (some blocks) stops type =
      let tool_use_count = count_if (has_type json (codes "tool_use")) blocks in
      if ltb 0 tool_use_count
      then unsafe_because
          (codes "contains " ++ (decimal tool_use_count ++ codes " tool_use block(s)"))
          tool_use_count
      else (if stops
          then unsafe_because (codes "stop_reason is tool_use") 0
          else (if is_empty blocks
              then unsafe_because (codes "no content blocks in response") 0
              else record { safe = true; reason = []; tool_use_count = 0 }))

  unfoldable pub inspect_parsed : Result Value → SafetyVerdict
  unfolding inspect_content
  inspect_parsed (err e) = unsafe_because (codes "invalid JSON") 0
  inspect_parsed (ok root) =
      inspect_content (array_field json (codes "content") root)
        (text_is json (str_field json (codes "stop_reason") root) (codes "tool_use"))
        (str_field json (codes "type") root)

  unfoldable pub inspect_json : Text → SafetyVerdict
  unfolding inspect_parsed
  inspect_json text = inspect_parsed (json.from_str text)

  unfoldable pub inspect_response : Text → SafetyVerdict
  unfolding inspect_sse inspect_json
  inspect_response [] = unsafe_because (codes "empty body") 0
  inspect_response (c ∷ text) =
      if contains_text (codes "event: ") (c ∷ text) || starts_with (codes "data:") (c ∷ text)
      then inspect_sse (c ∷ text)
      else inspect_json (c ∷ text)
