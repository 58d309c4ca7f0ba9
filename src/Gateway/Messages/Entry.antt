-- ===== src/Gateway/Messages/Entry.antt =====
-- src/gateway/routes.rs: the handlers up to `try_acquire`, the arms of its result, and `responses`.
use toche.Prelude.{ℕ, List, [], Option, none, some, false, ◌||◌, Text, and_then, if◌then◌else◌}
use toche.Prelude.Maps.{Map}
use toche.Prelude.Maps
use toche.Config.Resolver.{ResolvedIntegration}
use toche.Protocol.{anthropic, openai_responses, extract_model, is_streaming}
use toche.Reduce.Transform.{Env}
use toche.Shield.Broadcast.{Broadcast}
use toche.Shield.Coalesce.{
  CapturedResponse, CoalesceResult, coalesced, failed, forward, leads, waits, acquire, Acquired,
}
use toche.Shield.Fingerprint.{compute}
use toche.Gateway.Handler.{
  granted, timed_out, no_more_permits, reused, forward_to_upstream, upstream_url, HeaderApi,
  upstream_headers,
}
use toche.Gateway.Messages.{
  Outside, Settings, Led, refused, served, State, model_allowed, policy_hash, trust_domain, lead,
}
use toche.Gateway.Rewrite.{bypass_of}

-- The headers of a request, of which one name may stand several times: the first is read.
abbrev pub read_header : HeaderApi → List (Text × Text) → Text → Option Text
read_header http headers name = and_then (Maps.get name headers) http.to_str

-- `responses`, with the body as it came.
unfoldable pub responses :
    HeaderApi → Option ResolvedIntegration → ℕ → Outside → List (Text × Text) → Text → Led
responses http none max o headers body = refused 500
responses http (some resolved) max o headers body = elim (upstream_headers http resolved headers) [
  | none ↦ refused 500
  | some sent ↦ elim o.permit [
    | timed_out ↦ refused 503
    | no_more_permits ↦ refused 503
    | granted ↦
        elim (forward_to_upstream openai_responses max
          (o.upstream (upstream_url resolved openai_responses) sent body)) [
            | none ↦ refused 502
            | some r ↦ served r none
          ]
  ]
]

module _ (env : Env) (lossy : List ℕ → Text) (b : Broadcast (Option CapturedResponse))
    -- SHA-256 in hexadecimal, and its first eight bytes.
    (sha short : Text → Text) (http : HeaderApi) where
  open env use {json}

  -- Where a request of `messages` stands before its first wait.
  pub data Entry : Type 0 where
    stopped : ℕ → Entry
    leading : Text → Map Text → Entry
    waiting : b.Receiver → Entry

  abbrev entry_of : Map Text → Acquired b → Entry
  entry_of sent (leads key) = leading key sent
  entry_of sent (waits r) = waiting r

  unfoldable pub enter :
      Option ResolvedIntegration
      → List (Text × Text)
      → Text
      → State env lossy b
      → Entry × State env lossy b
  enter none headers body s = (stopped 500, s)
  enter (some resolved) headers body s =
      if model_allowed resolved (extract_model json body)
      then elim (upstream_headers http resolved headers) [
        | none ↦ (stopped 500, s)
        | some sent ↦
            if (bypass_of (read_header http headers)).shield || is_streaming json body
            then (leading [] sent, s)
            else (let (got, store) =
                  acquire b s.store (upstream_url resolved anthropic) (compute json sha body)
                    (trust_domain short resolved) (policy_hash short resolved) in
                (entry_of sent got, record s { store = store }))
      ]
      else (stopped 400, s)

  -- The arms of the match on the result of `try_acquire`.
  unfoldable pub dispatch :
      Settings
      → Outside
      → List (Text × Text)
      → Map Text
      → Text
      → CoalesceResult
      → State env lossy b
      → Led × State env lossy b
  dispatch set o headers sent body (coalesced r) s =
      (served (reused r.status r.body_bytes 1 false) none, s)
  dispatch set o headers sent body failed s = (refused 503, s)
  dispatch set o headers sent body (forward key) s =
      lead env lossy b set o (bypass_of (read_header http headers)) sent key body s
