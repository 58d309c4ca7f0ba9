-- ===== src/SafeCache/Db.antt =====
-- src/safe_cache/cache_db.rs: the tables of the response cache, with what its SQL statements do to
-- them. A statement runs whole, and none fails. Times are texts of `to_rfc3339`, compared as
-- SQLite compares them. Token counts are below 2 ^ 63, so that their casts keep them.
use toche.Prelude.{
  ℕ, suc, ◌+◌, List, [], ◌∷◌, Option, none, some, Bool, true, false, ◌&&◌, ◌||◌, not, Text, text_eq,
  if◌then◌else◌, any, find, retain, map, length, leb, ltb, ◌==◌,
}

pub record CacheEntry : Type 0 where
  pub id : ℕ
  pub project_path : Text
  pub fingerprint : Text
  pub workspace_fingerprint : Text
  pub response_hash : Text
  pub model : Text
  pub status : ℕ
  pub tokens_input : ℕ
  pub tokens_output : ℕ
  pub created_at : Text
  pub last_hit_at : Text
  pub hit_count : ℕ

pub record NewCacheEntry : Type 0 where
  pub project_path : Text
  pub fingerprint : Text
  pub workspace_fingerprint : Text
  pub response_hash : Text
  pub model : Text
  pub status : ℕ
  pub tokens_input : ℕ
  pub tokens_output : ℕ

pub record CacheReject : Type 0 where
  pub timestamp : Text
  pub project_path : Text
  pub fingerprint : Text
  pub reason : Text

-- The tables `safe_cache`, `cache_rejects`, `cas_known` and `cas_cache_refs`.
pub record CacheDb : Type 0 where
  pub safe_cache : List CacheEntry
  pub cache_rejects : List CacheReject
  pub cas_known : List Text
  pub cas_cache_refs : List Text

abbrev pub contains : Text → List Text → Bool
contains h hashes = any (λ j. text_eq j h) hashes

abbrev pub insert_or_ignore : Text → List Text → List Text
insert_or_ignore h hashes = if contains h hashes then hashes else h ∷ hashes

-- The order of SQLite on texts.
unfoldable pub text_lt : Text → Text → Bool
text_lt s [] = false
text_lt [] (y ∷ t) = true
text_lt (x ∷ s) (y ∷ t) = let later = text_lt s t in ltb x y || x == y && later

-- The number that SQLite gives to a new row.
unfoldable pub next_id : List CacheEntry → ℕ
next_id [] = 1
next_id (r ∷ rows) = let n = next_id rows in if leb n r.id then suc r.id else n

abbrev pub is_at : Text → Text → CacheEntry → Bool
is_at project fingerprint r = text_eq r.project_path project && text_eq r.fingerprint fingerprint

-- What opening does to a database of the current version: known are also the blobs of all entries.
unfoldable pub backfill : List CacheEntry → List Text → List Text
backfill [] known = known
backfill (r ∷ rows) known = backfill rows (insert_or_ignore r.response_hash known)

unfoldable pub open_db : CacheDb → CacheDb
unfolding backfill
open_db s = record s { cas_known = backfill s.safe_cache s.cas_known }

unfoldable pub register_cas : Text → CacheDb → CacheDb
register_cas hash s = record s { cas_known = insert_or_ignore hash s.cas_known }

unfoldable pub lookup : CacheDb → Text → Text → Option CacheEntry
lookup s project fingerprint = find (is_at project fingerprint) s.safe_cache

abbrev pub new_row : ℕ → Text → NewCacheEntry → CacheEntry
new_row id now e = record {
  id = id;
  project_path = e.project_path;
  fingerprint = e.fingerprint;
  workspace_fingerprint = e.workspace_fingerprint;
  response_hash = e.response_hash;
  model = e.model;
  status = e.status;
  tokens_input = e.tokens_input;
  tokens_output = e.tokens_output;
  created_at = now;
  last_hit_at = now;
  hit_count = 1;
}

unfoldable pub insert : Text → NewCacheEntry → CacheDb → CacheDb
unfolding register_cas next_id
insert now e s =
    let known = contains e.response_hash s.cas_known in
    let others = retain (λ r. not (is_at e.project_path e.fingerprint r)) s.safe_cache in
    record (register_cas e.response_hash s) {
      cas_cache_refs =
          if known then s.cas_cache_refs else insert_or_ignore e.response_hash s.cas_cache_refs;
      safe_cache = new_row (next_id s.safe_cache) now e ∷ others;
    }

unfoldable pub touch : Text → Text → Text → CacheDb → CacheDb
touch now project fingerprint s = record s {
  safe_cache =
      map
        (λ (r : CacheEntry).
          if is_at project fingerprint r
          then record r { last_hit_at = now; hit_count = r.hit_count + 1 }
          else r)
        s.safe_cache;
}

unfoldable pub evict_expired : Text → CacheDb → CacheDb × ℕ
unfolding text_lt
evict_expired cutoff s = (
  record s {
    safe_cache = retain (λ (r : CacheEntry). not (text_lt r.created_at cutoff)) s.safe_cache;
  },
  length (retain (λ (r : CacheEntry). text_lt r.created_at cutoff) s.safe_cache),
)

unfoldable pub clear : Option Text → CacheDb → CacheDb × ℕ
clear (some p) s = (
  record s {
    safe_cache = retain (λ (r : CacheEntry). not (text_eq r.project_path p)) s.safe_cache;
    cache_rejects = retain (λ (r : CacheReject). not (text_eq r.project_path p)) s.cache_rejects;
  },
  length (retain (λ (r : CacheEntry). text_eq r.project_path p) s.safe_cache),
)
clear none s = (record s { safe_cache = []; cache_rejects = [] }, length s.safe_cache)

unfoldable pub insert_reject : CacheReject → CacheDb → CacheDb
insert_reject r s = record s { cache_rejects = r ∷ s.cache_rejects }

unfoldable pub evict_expired_rejects : Text → CacheDb → CacheDb × ℕ
unfolding text_lt
evict_expired_rejects cutoff s = (
  record s {
    cache_rejects = retain (λ (r : CacheReject). not (text_lt r.timestamp cutoff)) s.cache_rejects;
  },
  length (retain (λ (r : CacheReject). text_lt r.timestamp cutoff) s.cache_rejects),
)

unfoldable pub count : CacheDb → Option Text → ℕ
count s none = length s.safe_cache
count s (some p) = length (retain (λ (r : CacheEntry). text_eq r.project_path p) s.safe_cache)

unfoldable pub count_rejects : CacheDb → Option Text → ℕ
count_rejects s none = length s.cache_rejects
count_rejects s (some p) =
    length (retain (λ (r : CacheReject). text_eq r.project_path p) s.cache_rejects)

-- The operations that change the tables.
pub data Operation : Type 0 where
  opens : Operation
  registers : Text → Operation
  inserts : Text → NewCacheEntry → Operation
  touches : Text → Text → Text → Operation
  evicts : Text → Operation
  clears : Option Text → Operation
  rejects : CacheReject → Operation
  evicts_rejects : Text → Operation

unfoldable pub step : Operation → CacheDb → CacheDb
unfolding open_db register_cas insert touch evict_expired clear insert_reject evict_expired_rejects
step opens s = open_db s
step (registers hash) s = register_cas hash s
step (inserts now e) s = insert now e s
step (touches now project fingerprint) s = touch now project fingerprint s
step (evicts cutoff) s = (evict_expired cutoff s).0
step (clears project) s = (clear project s).0
step (rejects r) s = insert_reject r s
step (evicts_rejects cutoff) s = (evict_expired_rejects cutoff s).0

unfoldable pub run : List Operation → CacheDb → CacheDb
unfolding step
run [] s = s
run (o ∷ ops) s = run ops (step o s)
