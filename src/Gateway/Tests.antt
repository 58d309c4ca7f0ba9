-- ===== src/Gateway/Tests.antt =====
-- The limits of the gateway at small bodies and a small cache.
use toche.Prelude.{
  Option, false, Text, text_eq, if◌then◌else◌, ◌&&◌, ◌%◌, ◌^◌, ℕ, List, [], ◌∷◌, none, some, true,
  ◌≡◌, ◌↔◌, ◌≤◌, ◌+◌, refl, length, codes, arith,
}
use toche.Prelude.Maps.{Map}
use toche.Prelude.Maps
use toche.Config.Resolver.{ResolvedIntegration}
use toche.Config.Types.{absent}
use toche.Shield.Broadcast.{Broadcast}
use toche.Shield.Channel.{log_channel}
use toche.Shield.Coalesce.{CapturedResponse}
use toche.Reduce.Example.{env, memory, memory_laws, digest, digits_hex}
use toche.Reduce.Storage.{blob_path, store_new_at}
use toche.Gateway.Handler.{replied, granted}
use toche.Gateway.Messages.{Outside, Settings, State, serve}
use toche.Gateway.Messages.Flights.{is_ended, serve_ends}
use toche.Gateway.Reuse.{Place, Weather, Response, write_entry, entry_for, lookup_cached}
use toche.Gateway.Reuse.Replay.{lookup_cached-write_entry}
use toche.Gateway.Rewrite.{Bypass, rewrite}
use toche.Gateway.Rewrite.Identical.{rewrite_identical}
use toche.Gateway.Bodies.{
  read_body_limited, read_body_limited_iff, body, data_frame, trailers, collect, collect-received,
  bytes, stream_error,
}
use toche.Gateway.Limits.{
  Disk, within_limits, within_limits-entries, within_limits-bytes, entries_ok, cas_bytes_ok,
  free_ok,
}
use toche.Config.Types.{StorageConfig, default_storage}
use toche.SafeCache.Db.{
  CacheDb, NewCacheEntry, count, insert, evict_expired, evict_expired_rejects, text_lt,
}

abbrev sent_bytes : List ℕ
sent_bytes = 1 ∷ 2 ∷ 3 ∷ []

read_body_limited_iff_example :
    (read_body_limited (some 3) (data_frame (1 ∷ 2 ∷ []) ∷ trailers ∷ data_frame (3 ∷ []) ∷ []) 3
      ≡ body sent_bytes)
    ↔ ((true ≡ true) × (some sent_bytes ≡ some sent_bytes) × (length sent_bytes ≤ 3))
read_body_limited_iff_example =
    read_body_limited_iff (some 3) (data_frame (1 ∷ 2 ∷ []) ∷ trailers ∷ data_frame (3 ∷ []) ∷ []) 3
      sent_bytes

collect-received_example :
    collect 4 [] (bytes (1 ∷ 2 ∷ []) ∷ stream_error ∷ bytes (3 ∷ []) ∷ []) ≡ some (1 ∷ 2 ∷ 3 ∷ [])
collect-received_example =
    collect-received 4 (bytes (1 ∷ 2 ∷ []) ∷ stream_error ∷ bytes (3 ∷ []) ∷ [])

abbrev limited : StorageConfig
limited = record default_storage {
  max_entries = some 1;
  max_cas_bytes = some 100;
  min_free_disk_bytes = some 10;
}

abbrev disk : Disk
disk = record { cas_bytes = 90; measurable = true; free = some 20 }

abbrev empty : CacheDb
empty = record { safe_cache = []; cache_rejects = []; cas_known = []; cas_cache_refs = [] }

abbrev answer : NewCacheEntry
answer = record {
  project_path = codes "/p";
  fingerprint = codes "f";
  workspace_fingerprint = [];
  response_hash = codes "h";
  model = codes "m";
  status = 200;
  tokens_input = 3;
  tokens_output = 4;
}

within_limits-entries_example : count (insert (codes "2026") answer empty) none ≤ 1
unfolding within_limits evict_expired evict_expired_rejects entries_ok cas_bytes_ok free_ok count
within_limits-entries_example =
    within_limits-entries limited empty empty (codes "2025") (codes "2026") disk answer 10 1 refl
      refl (omega arith)

within_limits-bytes_example :
    (90 + 10 ≤ 100) × ((free : ℕ) × (disk.free ≡ some free) × (10 + 10 ≤ free))
unfolding within_limits evict_expired evict_expired_rejects entries_ok cas_bytes_ok free_ok count
within_limits-bytes_example =
    within_limits-bytes limited empty empty (codes "2025") disk (codes "/p") (codes "f") 10 100 10
      refl refl refl (omega arith) (omega arith)

-- An integration without any feature but the safe cache, and a request that reads as nothing.
abbrev resolved : ResolvedIntegration
resolved = record {
  id = codes "i";
  name = codes "i";
  upstream_url = codes "http://up/";
  upstream_headers = [];
  auth = record { header_name = []; secret_ref = absent; value = none };
  cache = none;
  reduce = some (record { enabled = false; command_bypass = [] });
  efficiency = none;
  safe_cache = some (record { enabled = true; ttl_days = 7; max_entry_bytes = 100 });
  graphify = none;
  models = [];
}

abbrev no_bypass : Bypass
no_bypass = record {
  shield = false;
  safe_cache = false;
  reduce = false;
  efficiency = false;
  cache = false;
}

rewrite_identical_example :
    ((rewrite env resolved no_bypass (codes "IN") []).0.final_body ≡ codes "IN")
    × ((rewrite env resolved no_bypass (codes "IN") []).1 ≡ [])
rewrite_identical_example = rewrite_identical env resolved no_bypass (codes "IN") [] refl

abbrev place : Place
place = record {
  project = codes "/p";
  fingerprint = codes "f";
  ws_fp = codes "w";
  now = codes "2026";
  cutoff = codes "2025";
}

abbrev fair : Weather
fair = record {
  opens_for_limits = true;
  opens_for_entry = true;
  inserts = true;
  opens_for_reject = true;
}

abbrev response : Response
response = record { status = 200; body_bytes = 1 ∷ 2 ∷ [] }

abbrev blobs : Map Text
blobs = (blob_path (digest response.body_bytes), response.body_bytes) ∷ []

abbrev lossy : List ℕ → Text
lossy bytes_ = bytes_

lookup_cached-write_entry_example :
    (body_ : List ℕ) × (let written =
        write_entry env fair place
          (entry_for env lossy place (codes "m") 1 response)
          (store_new_at memory digest response.body_bytes [])
          empty in
      (lookup_cached env place written.0 written.1).0
      ≡ some (record { status = 200 % 2 ^ 16; body_bytes = body_ }))
    × (digest body_ ≡ digest response.body_bytes)
unfolding store_new_at blob_path Maps.get Maps.insert Maps.remove text_lt
lookup_cached-write_entry_example =
    lookup_cached-write_entry env memory_laws digits_hex lossy fair place place (codes "m") 1
      response empty [] blobs (digest response.body_bytes) true
      (record { named = λ h t v r. absurd (cc) }) refl refl refl refl refl refl refl

abbrev channels : Broadcast (Option CapturedResponse)
channels = log_channel (Option CapturedResponse)

abbrev settings : Settings
settings = record { resolved = resolved; storage = default_storage; max_response_body_bytes = 100 }

abbrev outside : Outside
outside = record {
  place = place;
  place_after = place;
  opens_for_lookup = true;
  opens_for_register = true;
  weather = fair;
  opens_ledger = true;
  disk = disk;
  permit = granted;
  upstream = λ url headers body_. replied 200 (λ name. none) (bytes (1 ∷ 2 ∷ []) ∷ []);
}

-- One flight in the air.
abbrev shared : State env lossy channels
shared = record {
  store = record { flights = (codes "key", 0) ∷ []; world = (1, []) };
  db = empty;
  files = [];
}

serve_ends_example :
    Maps.get
      (codes "key")
      (serve env lossy channels settings outside no_bypass []
        (codes "key")
        (codes "IN")
        shared).1.store.flights
    ≡ (if is_ended env lossy channels outside
            (serve env lossy channels settings outside no_bypass []
              (codes "key")
              (codes "IN")
              shared).0
          && text_eq (codes "key") (codes "key")
        then none
        else some 0)
unfolding Maps.get text_eq
serve_ends_example =
    serve_ends env lossy channels settings outside no_bypass [] b'k' (codes "ey") (codes "IN")
      shared (codes "key")
