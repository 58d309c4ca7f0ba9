-- ===== src/Cache/Tests.antt =====
-- A request with a tool interaction: its breakpoints, and its fingerprint with and without them.
use toche.Prelude.{
  ℕ, List, [], ◌∷◌, none, some, true, Text, text_eq, codes, ◌≡◌, refl, ok, err, if◌then◌else◌, ◌⊎◌,
}
use toche.Json.{Json}
use toche.Json.Arrays.{array_field, str_field, update_array}
use toche.Json.Example.{Value, str, arr, object, of_list, example_json}
use toche.Cache.Breakpoint.{
  standard, BreakpointPlan, find_breakpoints, walk, content_blocks, is_tool_interaction,
  has_breakpoints,
}
use toche.Cache.Inject.{inject_value, inject_cache_control}
use toche.Cache.Prefix.{is_settled, IsPrefixEnd, walk-IsPrefixEnd}
use toche.Cache.Identity.{fingerprint-inject_cache_control}
use toche.Shield.Fingerprint.{compute}

abbrev block : Text → Value
block kind = object ((codes "type", str kind) ∷ [])

abbrev message : Text → List Value → Value
message role blocks =
    object ((codes "role", str role) ∷ (codes "content", arr (of_list blocks)) ∷ [])

abbrev messages : List Value
messages =
    message (codes "user") (block (codes "text") ∷ block (codes "text") ∷ [])
    ∷ message (codes "assistant") (block (codes "tool_use") ∷ [])
    ∷ message (codes "user") (block (codes "tool_result") ∷ [])
    ∷ []

abbrev request : Value
request = object (
    (codes "stream", str (codes "true"))
    ∷ (codes "system", arr (of_list (block (codes "text") ∷ [])))
    ∷ (codes "messages", arr (of_list messages))
    ∷ [])

abbrev plan : BreakpointPlan
plan = record { system_block_index = some 0; message_blocks = (0, 1) ∷ [] }

-- One value is put out as "B", and the bodies "A" and "B" parse to the request and to that value.
abbrev printing : Json
printing = example_json (λ t. err []) (λ v. ok (codes "B"))

abbrev json : Json
json =
    example_json
      (λ t. if text_eq t (codes "A") then ok request else ok (inject_value printing plan request))
      (λ v. ok (codes "B"))

plan_found : find_breakpoints json (codes "A") standard ≡ ok plan
unfolding find_breakpoints walk content_blocks is_tool_interaction array_field str_field text_eq
plan_found = refl

walk-IsPrefixEnd_example :
    ((walk json 0 messages none ≡ none) × (is_settled json messages ≡ true))
    ⊎ ((mi : ℕ) × (bi : ℕ) × (walk json 0 messages none ≡ some (mi, bi))
        × IsPrefixEnd json 0 messages mi bi)
walk-IsPrefixEnd_example = walk-IsPrefixEnd json messages

fingerprint-inject_cache_control_example :
    compute json (λ t. t) (codes "B") ≡ compute json (λ t. t) (codes "A")
unfolding inject_cache_control inject_value has_breakpoints text_eq update_array array_field
fingerprint-inject_cache_control_example =
    fingerprint-inject_cache_control json (λ t. t) plan (codes "A") (codes "B") (codes "B") request
      refl (λ h. refl) refl refl
