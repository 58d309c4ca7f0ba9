-- ===== src/Gateway/Messages.antt =====
-- src/gateway/routes.rs: the handlers `messages` and `responses`, from the request's text on. Of the
-- shared state the store of flights, the database of the cache and the blobs are followed; logging,
-- the ids of a request and the record in the ledger are not. What comes from outside, the permit and
-- the upstream's answer included, is an input. The part of a leader after `try_acquire` runs as one
-- step, and so does the task that it leaves behind.
pub mod Entry
pub mod Flights
use toche.Prelude.{
  ℕ, List, [], ◌∷◌, Option, none, some, is_some, Bool, true, false, not, ◌&&◌, ◌||◌, Text, codes,
  if◌then◌else◌,
}
use toche.Prelude.Maps.{Map}
use toche.Prelude.Maps
use toche.Config.Types.{
  StorageConfig, SafeCacheConfig, EfficiencyMode, normal, concise, careful, CachePolicy, observe,
  auto, display,
}
use toche.Cache.Breakpoint.{CacheBreakpoint, standard, system_only}
use toche.Config.Resolver.{ResolvedIntegration}
use toche.Efficiency.Inject.{tokens_of}
use toche.Identity.{derive_trust_domain_id, compute_policy_hash}
use toche.Protocol.{anthropic, openai_responses, extract_model, is_streaming}
use toche.Reduce.Transform.{Env}
use toche.SafeCache.Db.{CacheDb, contains, open_db, register_cas}
use toche.Shield.Broadcast.{Broadcast}
use toche.Shield.Coalesce.{CapturedResponse, Store, Acquired, leads, waits, acquire, complete}
use toche.Shield.Fingerprint.{compute}
use toche.Gateway.Handler.{
  ForwardedResponse, Permit, granted, timed_out, no_more_permits, Sent, reused, forward_to_upstream,
  upstream_url, HeaderApi, upstream_headers,
}
use toche.Gateway.Limits.{Disk}
use toche.Gateway.Reuse.{Place, Response, Weather, check_cache, store_response}
use toche.Gateway.Rewrite.{
  Bypass, Rewritten, rewrite, efficiency_mode, efficiency_mode_name, bypass_of,
}

-- What one request meets outside of the gateway: its place in the cache before and after the
-- upstream's answer, whether each opening of a database succeeds, the permit, and the upstream as a
-- function of the address, the headers and the body that it is sent.
pub record Outside : Type 0 where
  pub place : Place
  pub place_after : Place
  pub opens_for_lookup : Bool
  pub opens_for_register : Bool
  pub weather : Weather
  pub opens_ledger : Bool
  pub disk : Disk
  pub permit : Permit
  pub upstream : Text → Map Text → Text → Sent

-- The settings of `AppState`.
pub record Settings : Type 0 where
  pub resolved : ResolvedIntegration
  pub storage : StorageConfig
  pub max_response_body_bytes : ℕ

-- What the leader of a flight comes to: a status, or a response with the key that the task behind it
-- still has to complete.
pub data Led : Type 0 where
  refused : ℕ → Led
  served : ForwardedResponse → Option Text → Led

abbrev mode_of : Option CachePolicy → Text
mode_of none = codes "observe"
mode_of (some c) = elim c.mode [ observe ↦ codes "observe" | auto ↦ codes "auto" ]

abbrev breakpoint_of : Option CachePolicy → Text
breakpoint_of none = codes "standard"
breakpoint_of (some c) = elim c.breakpoint [
  | standard ↦ codes "standard"
  | system_only ↦ codes "system_only"
]

abbrev mode_text : EfficiencyMode → Text
mode_text normal = codes "normal"
mode_text concise = codes "concise"
mode_text careful = codes "careful"

abbrev cache_enabled : Option CachePolicy → Bool
cache_enabled none = false
cache_enabled (some c) = c.enabled

abbrev safe_cache_enabled : Option SafeCacheConfig → Bool
safe_cache_enabled none = false
safe_cache_enabled (some c) = c.enabled

-- The digest of the settings that shape a response, part of the key of a flight.
unfoldable pub policy_hash : (Text → Text) → ResolvedIntegration → Text
policy_hash short resolved =
    compute_policy_hash short (cache_enabled resolved.cache) (mode_of resolved.cache)
      (breakpoint_of resolved.cache) (is_some resolved.reduce)
      (mode_text (efficiency_mode resolved.efficiency)) (safe_cache_enabled resolved.safe_cache)

unfoldable pub trust_domain : (Text → Text) → ResolvedIntegration → Text
trust_domain short resolved =
    derive_trust_domain_id short resolved.id resolved.name resolved.id
      (display resolved.auth.secret_ref)

-- The hashes of a reduction are registered once each.
unfoldable pub register_all : List Text → List Text → CacheDb → CacheDb
register_all seen [] db = db
register_all seen (hash ∷ hashes) db =
    if contains hash seen
    then register_all seen hashes db
    else register_all (hash ∷ seen) hashes (register_cas hash db)

unfoldable pub register_hashes : Bool → List Text → CacheDb → CacheDb
unfolding register_all
register_hashes opens [] db = db
register_hashes opens (hash ∷ hashes) db =
    if opens then register_all [] (hash ∷ hashes) (open_db db) else db

-- The model of a request against the whitelist of its integration.
unfoldable pub model_allowed : ResolvedIntegration → Text → Bool
model_allowed resolved model = elim resolved.models [
  | [] ↦ true
  | m ∷ more ↦ is_some (Maps.get model (m ∷ more))
]

unfoldable pub task_key : Text → Option Text
task_key [] = none
task_key (c ∷ key) = some (c ∷ key)

-- The response with the numbers of its rewriting.
unfoldable pub with_counts : Rewritten → ForwardedResponse → ForwardedResponse
with_counts done r = record r {
  reduction_input_tokens = done.reduction.tokens_raw;
  reduction_output_tokens = done.reduction.tokens_reduced;
  reduction_count = done.reduction.reductions;
  efficiency_tokens_added = done.tokens_added;
  efficiency_mode = done.mode_name;
}

module _ (env : Env) (lossy : List ℕ → Text) (b : Broadcast (Option CapturedResponse)) where
  open env use {json, fs, digest}
  open fs use {Files}

  -- What the requests share.
  pub record State : Type 0 where
    pub store : Store b
    pub db : CacheDb
    pub files : Files

  -- The upstream's answer, and its write to the cache.
  unfoldable pub answer :
      Settings
      → Outside
      → Bypass
      → Text
      → Text
      → Rewritten
      → State
      → Option ForwardedResponse
      → Led × State
  unfolding with_counts task_key
  answer set o bypass key body done s none = (refused 502, s)
  answer set o bypass key body done s (some r) =
      let fwd = with_counts done r in
      let (db, files) =
        store_response env lossy set.resolved.safe_cache bypass.safe_cache o.weather set.storage
          o.disk o.place_after (extract_model json body) (tokens_of body)
          (record { status = fwd.status; body_bytes = fwd.body_bytes }) s.db s.files in
      (served fwd (task_key key), record s { db = db; files = files })

  -- The wait for the permit, with what follows it.
  unfoldable pub with_permit : Permit → State → Led × State → Led × State
  with_permit granted s after = after
  with_permit timed_out s after = (refused 503, s)
  with_permit no_more_permits s after = (refused 503, s)

  -- A request without a cached response.
  unfoldable pub miss : Settings → Outside → Bypass → Map Text → Text → Text → State → Led × State
  unfolding register_hashes answer with_permit
  miss set o bypass headers key body s =
      let (done, files) = rewrite env set.resolved bypass body s.files in
      let db = register_hashes o.opens_for_register done.reduction.hashes s.db in
      let s' : State = record s { db = db; files = files } in
      with_permit o.permit s' (
        answer set o bypass key body done s' (
          forward_to_upstream anthropic set.max_response_body_bytes
            (o.upstream (upstream_url set.resolved anthropic) headers done.final_body)))

  -- What follows the check of the cache: a hit completes the flight at once.
  unfoldable pub lead_from :
      Settings → Outside → Bypass → Map Text → Text → Text → State → Option Response → Led × State
  unfolding miss
  lead_from set o bypass headers key body s (some r) = (
    served (reused r.status r.body_bytes 0 true) none,
    record s {
      store = complete b s.store key (record { status = r.status; body_bytes = r.body_bytes });
    },
  )
  lead_from set o bypass headers key body s none = miss set o bypass headers key body s

  -- The arm `Forward` of the handler, with the key of the flight, which is empty where the shield
  -- was passed by.
  unfoldable pub lead : Settings → Outside → Bypass → Map Text → Text → Text → State → Led × State
  unfolding lead_from
  lead set o bypass headers key body s =
      let (hit, db) =
        check_cache env set.resolved.safe_cache bypass.safe_cache o.opens_for_lookup o.place s.db
          s.files in
      lead_from set o bypass headers key body (record s { db = db }) hit

  -- The spawned task, which needs the ledger.
  unfoldable pub finish_task : Outside → Led × State → Led × State
  finish_task o (refused status, s) = (refused status, s)
  finish_task o (served r none, s) = (served r none, s)
  finish_task o (served r (some key), s) = (
    served r (some key),
    if o.opens_ledger
        then record s {
          store = complete b s.store key (record { status = r.status; body_bytes = r.body_bytes });
        }
        else s,
  )

  -- A leader from `try_acquire` to the end of its task.
  unfoldable pub serve : Settings → Outside → Bypass → Map Text → Text → Text → State → Led × State
  unfolding lead finish_task
  serve set o bypass headers key body s = finish_task o (lead set o bypass headers key body s)
