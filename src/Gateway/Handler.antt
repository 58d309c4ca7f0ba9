-- ===== src/Gateway/Handler.antt =====
-- src/gateway/routes.rs: what is sent upstream and what comes back. The `http` crate's readings of a
-- header are parameters.
use toche.Prelude.{
  ◌==◌, ℕ, List, [], ◌∷◌, ◌++◌, Option, none, some, Bool, false, ◌||◌, Text, text_eq, codes,
  reverse, if◌then◌else◌, and_then,
}
use toche.Prelude.Maps.{Map}
use toche.Prelude.Maps
use toche.Config.Types.{}
use toche.Config.Resolver.{ResolvedIntegration}
use toche.Protocol.{Protocol, path, parse_response_headers}
use toche.Gateway.Bodies.{Item, collect}

pub record ForwardedResponse : Type 0 where
  pub status : ℕ
  pub body_bytes : List ℕ
  pub cache_read_tokens : ℕ
  pub cache_create_tokens : ℕ
  pub coalesced_count : ℕ
  pub reduction_input_tokens : ℕ
  pub reduction_output_tokens : ℕ
  pub reduction_count : ℕ
  pub efficiency_tokens_added : ℕ
  pub efficiency_mode : Text
  pub local_cache_hit : Bool

-- What the permit comes to, and the answer to a request that was sent.
pub data Permit : Type 0 where
  granted timed_out no_more_permits : Permit

pub data Sent : Type 0 where
  send_failed : Sent
  replied : ℕ → (Text → Option Text) → List Item → Sent

-- A response that came from somewhere else than upstream.
unfoldable pub reused : ℕ → List ℕ → ℕ → Bool → ForwardedResponse
reused status body_bytes coalesced_count local_cache_hit = record {
  status = status;
  body_bytes = body_bytes;
  cache_read_tokens = 0;
  cache_create_tokens = 0;
  coalesced_count = coalesced_count;
  reduction_input_tokens = 0;
  reduction_output_tokens = 0;
  reduction_count = 0;
  efficiency_tokens_added = 0;
  efficiency_mode = [];
  local_cache_hit = local_cache_hit;
}

-- Nothing stands for the status 502.
unfoldable pub forward_to_upstream : Protocol → ℕ → Sent → Option ForwardedResponse
unfolding reused
forward_to_upstream protocol max_response_body_bytes send_failed = none
forward_to_upstream protocol max_response_body_bytes (replied status headers items) =
    elim (collect max_response_body_bytes [] items) [
      | none ↦ none
      | some body_bytes ↦
          let counts = parse_response_headers protocol headers in
          some (record (reused status body_bytes 0 false) {
            cache_read_tokens = counts.cache_read_tokens;
            cache_create_tokens = counts.cache_create_tokens;
          })
    ]

-- `trim_end_matches('/')`
unfoldable pub trim_slashes : Text → Text
trim_slashes [] = []
trim_slashes (c ∷ t) = if c == b'/' then trim_slashes t else c ∷ t

unfoldable pub upstream_url : ResolvedIntegration → Protocol → Text
unfolding trim_slashes
upstream_url resolved protocol =
    reverse (trim_slashes (reverse resolved.upstream_url)) ++ path protocol

-- The `http` crate's reading of a header's name and of its value, and of a value as text.
pub record HeaderApi : Type 0 where
  pub from_bytes : Text → Option Text
  pub from_str : Text → Option Text
  pub to_str : Text → Option Text

-- The client's headers, whose names are in lower case; one name may stand several times, and the
-- last stays.
unfoldable pub copy_headers : List (Text × Text) → Map Text → Map Text
copy_headers [] m = m
copy_headers ((name, value) ∷ headers) m = copy_headers headers (
    if text_eq name (codes "host") || text_eq name (codes "content-length")
    then m
    else Maps.insert name value m)

module _ (http : HeaderApi) where
  unfoldable pub put_header : Text → Text → Map Text → Option (Map Text)
  put_header name value m =
      and_then (http.from_bytes name)
        (λ n. and_then (http.from_str value) (λ v. some (Maps.insert n v m)))

  unfoldable pub put_headers : List (Text × Text) → Map Text → Option (Map Text)
  unfolding put_header
  put_headers [] m = some m
  put_headers ((name, value) ∷ more) m = and_then (put_header name value m) (put_headers more)

  -- Nothing stands for the status 500.
  unfoldable pub upstream_headers : ResolvedIntegration → List (Text × Text) → Option (Map Text)
  unfolding put_headers copy_headers
  upstream_headers resolved headers =
      and_then (put_headers resolved.upstream_headers (copy_headers headers [])) (λ m.
        elim resolved.auth.value [
          | none ↦ some m
          | some value ↦ put_header resolved.auth.header_name value m
        ])
