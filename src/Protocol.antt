-- ===== src/Protocol.antt =====
-- src/protocol/mod.rs, src/protocol/anthropic/mod.rs and src/protocol/openai_responses/mod.rs: the
-- two protocol drivers. Response headers come as the texts of their values.
use toche.Prelude.{
  ℕ, ◌+◌, ◌*◌, ◌-◌, ◌^◌, [], ◌∷◌, Option, none, some, Bool, false, Text, codes, Result, ok, err,
  and_then, if◌then◌else◌, ltb, leb, ◌&&◌,
}
use toche.Json.{Json}
use toche.Json.Arrays.{str_field}
use toche.Cache.Breakpoint.{BreakpointPlan}
use toche.Cache.Inject.{inject_cache_control}

pub record ResponseHeaders : Type 0 where
  pub cache_read_tokens : ℕ
  pub cache_create_tokens : ℕ

pub data Protocol : Type 0 where
  anthropic openai_responses : Protocol

unfoldable pub path : Protocol → Text
path anthropic = codes "/v1/messages"
path openai_responses = codes "/v1/responses"

abbrev digit : ℕ → Option ℕ
digit c = if leb b'0' c && leb c b'9' then some (c - b'0') else none

-- Digits behind a number: `u64::from_str`, which fails on anything else and on overflow.
unfoldable pub parse_digits : ℕ → Text → Option ℕ
parse_digits n [] = some n
parse_digits n (c ∷ t) = and_then (digit c) (λ d.
    let more = parse_digits (n * 10 + d) t in if ltb (n * 10 + d) (2 ^ 64) then more else none)

abbrev pub parse_u64 : Text → Option ℕ
parse_u64 [] = none
parse_u64 (c ∷ []) = parse_digits 0 (c ∷ [])
parse_u64 (c ∷ (d ∷ t)) =
    if leb b'+' c && leb c b'+' then parse_digits 0 (d ∷ t) else parse_digits 0 (c ∷ (d ∷ t))

abbrev or_zero : Option ℕ → ℕ
or_zero none = 0
or_zero (some n) = n

-- A header's number, 0 where it is missing, no text or no number.
unfoldable pub count_of : (Text → Option Text) → Text → ℕ
unfolding parse_digits
count_of headers name = or_zero (and_then (headers name) parse_u64)

unfoldable pub parse_response_headers : Protocol → (Text → Option Text) → ResponseHeaders
unfolding count_of
parse_response_headers anthropic headers = record {
  cache_read_tokens = count_of headers (codes "anthropic-cache-read-input-tokens");
  cache_create_tokens = count_of headers (codes "anthropic-cache-creation-input-tokens");
}
parse_response_headers openai_responses headers = record {
  cache_read_tokens = 0;
  cache_create_tokens = 0;
}

-- `Result::ok`
abbrev success {ℓ} : {A : Type ℓ} → Result A → Option A
success (ok a) = some a
success (err e) = none

module _ (json : Json) where
  abbrev or_unknown : Option Text → Text
  or_unknown none = codes "unknown"
  or_unknown (some t) = t

  unfoldable pub extract_model : Text → Text
  extract_model body =
      or_unknown (and_then (success (json.from_str body)) (str_field json (codes "model")))

  abbrev or_false : Option Bool → Bool
  or_false none = false
  or_false (some b) = b

  unfoldable pub is_streaming : Text → Bool
  is_streaming body = or_false (
      and_then (success (json.from_str body))
        (λ v. and_then (json.get (codes "stream") v) json.as_bool))

  unfoldable pub inject_for : Protocol → Text → BreakpointPlan → Result Text
  inject_for anthropic body plan = inject_cache_control json body plan
  inject_for openai_responses body plan = ok body
