-- ===== src/SafeCache/Verdict.antt =====
-- src/safe_cache/inspect.rs: what a response that is declared safe holds.
use toche.Prelude.{
  List, [], ◌∷◌, ◌++◌, Option, none, some, Bool, true, false, ◌&&◌, not, Text, codes, if◌then◌else◌,
  any, ◌≡◌, refl, arith, ltb, Result, ok, err,
}
use toche.Json.{Json}
use toche.Json.Arrays.{array_field, str_field}
use toche.Reduce.Lines.{decimal}
use toche.Cache.Breakpoint.{has_type, text_is}
use toche.SafeCache.Inspect.{
  count_if, inspect_contentless, unsafe_because, SafetyVerdict, is_empty, inspect_content,
  inspect_parsed, inspect_json,
}

count_if_none : {A : Type 0} (p : A → Bool) (xs : List A) → ltb 0 (count_if p xs) ≡ any p xs
count_if_none p [] = refl
count_if_none p (x ∷ xs) = ground (arith, count_if_none p xs)

plain_of :
    (a b c : Bool) (x : SafetyVerdict)
    → x.safe ≡ false
    → (if a
        then x
        else (if b
            then unsafe_because (codes "stop_reason is tool_use") 0
            else (if c
                then unsafe_because (codes "no content blocks in response") 0
                else record { safe = true; reason = []; tool_use_count = 0 }))).safe
      ≡ (not a && (not b && not c))
plain_of true b c x h = h
plain_of false true c x h = refl
plain_of false false true x h = refl
plain_of false false false x h = refl

module _ (json : Json) where
  open json use {Value}

  contentless_unsafe : (t : Option Text) → (inspect_contentless json t).safe ≡ false
  unfolding inspect_contentless
  contentless_unsafe none = refl
  contentless_unsafe (some t) = ground arith

  -- Whether a response has content blocks, of which none is a tool use, and did not stop for one.
  abbrev pub is_plain : Option (List Value) → Bool → Bool
  is_plain none stops = false
  is_plain (some blocks) stops =
      not (any (has_type json (codes "tool_use")) blocks) && (not stops && not (is_empty blocks))

  content_plain :
      (content : Option (List Value)) (stops : Bool) (type : Option Text)
      → (inspect_content json content stops type).safe ≡ is_plain content stops
  unfolding inspect_content
  content_plain none true type = refl
  content_plain none false type = contentless_unsafe type
  content_plain (some blocks) stops type =
      rw (count_if_none (has_type json (codes "tool_use")) blocks) (
        plain_of (any (has_type json (codes "tool_use")) blocks) stops (is_empty blocks)
          (unsafe_because
            (codes "contains "
              ++ (decimal (count_if (has_type json (codes "tool_use")) blocks)
                  ++ codes " tool_use block(s)"))
            (count_if (has_type json (codes "tool_use")) blocks))
          refl)

  -- A response in JSON is declared safe exactly where it parses, has content blocks, of which none
  -- is a tool use, and did not stop for a tool use.
  pub inspect_json_iff :
      (text : Text)
      → (inspect_json json text).safe ≡ elim (json.from_str text) [
        | ok root ↦
            is_plain
              (array_field json (codes "content") root)
              (text_is json (str_field json (codes "stop_reason") root) (codes "tool_use"))
        | err e ↦ false
      ]
  unfolding inspect_json inspect_parsed
  inspect_json_iff text = parsed_plain (json.from_str text)
    where
      parsed_plain :
          (r : Result Value)
          → (inspect_parsed json r).safe ≡ elim r [
            | ok root ↦
                is_plain
                  (array_field json (codes "content") root)
                  (text_is json (str_field json (codes "stop_reason") root) (codes "tool_use"))
            | err e ↦ false
          ]
      parsed_plain (ok root) =
          content_plain (array_field json (codes "content") root)
            (text_is json (str_field json (codes "stop_reason") root) (codes "tool_use"))
            (str_field json (codes "type") root)
      parsed_plain (err e) = refl
