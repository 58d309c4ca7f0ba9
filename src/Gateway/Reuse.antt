-- ===== src/Gateway/Reuse.antt =====
-- src/gateway/routes.rs, `messages`: the lookup of a cached response, and the write of a new one.
-- `lossy` is `String::from_utf8_lossy`. Each opening of the database may fail, and so may the insert;
-- the other statements do not.
pub mod Replay
use toche.Prelude.{
  ℕ, ◌%◌, ◌^◌, List, [], ◌∷◌, Option, none, some, Bool, true, false, not, ◌&&◌, Text, text_eq,
  codes, Result, ok, err, if◌then◌else◌, leb, ltb, length,
}
use toche.Config.Types.{SafeCacheConfig, StorageConfig}
use toche.Efficiency.Inject.{tokens_of}
use toche.SafeCache.Db.{
  CacheDb, CacheEntry, NewCacheEntry, open_db, lookup, insert, touch, evict_expired,
  evict_expired_rejects, insert_reject,
}
use toche.SafeCache.Inspect.{SafetyVerdict, inspect_response}
use toche.Gateway.Limits.{Disk, within_limits}
use toche.Reduce.Storage.{store_new_at, retrieve_at, delete_at}
use toche.Reduce.Transform.{Env}

-- A request's place in the cache, at a time; `cutoff` is the time before which entries have expired.
pub record Place : Type 0 where
  pub project : Text
  pub fingerprint : Text
  pub ws_fp : Text
  pub now : Text
  pub cutoff : Text

-- Where the safe cache is set up, enabled and not bypassed.
unfoldable pub active : Option SafeCacheConfig → Bool → Option SafeCacheConfig
active none bypass = none
active (some cfg) bypass = if cfg.enabled && not bypass then some cfg else none

-- A database opened and freed of what has expired.
unfoldable pub opened : Text → CacheDb → CacheDb
opened cutoff db = (evict_expired_rejects cutoff (evict_expired cutoff (open_db db)).0).0

abbrev pub rejected : Place → Text → CacheDb → CacheDb
rejected at reason db =
    insert_reject
      (record {
        timestamp = at.now;
        project_path = at.project;
        fingerprint = at.fingerprint;
        reason = reason;
      })
      db

-- The parts of a response that the cache keeps.
pub record Response : Type 0 where
  pub status : ℕ
  pub body_bytes : List ℕ

-- What may go wrong in a write: the database may not open for the test of the limits, for the entry
-- or for the reject, and the insert may fail.
pub record Weather : Type 0 where
  pub opens_for_limits : Bool
  pub opens_for_entry : Bool
  pub inserts : Bool
  pub opens_for_reject : Bool

module _ (env : Env) where
  open env use {json, fs, digest}
  open fs use {Files}

  -- An entry that was found, with what became of its blob.
  unfoldable pub replay : Place → CacheEntry → Result (List ℕ) → CacheDb → Option Response × CacheDb
  replay at entry (ok bytes) db = (
    some (record { status = entry.status % 2 ^ 16; body_bytes = bytes }),
    touch at.now at.project at.fingerprint db,
  )
  replay at entry (err e) db = (none, rejected at (codes "CAS blob not found") db)

  unfoldable pub lookup_cached : Place → CacheDb → Files → Option Response × CacheDb
  unfolding opened replay
  lookup_cached at db s =
      let db' = opened at.cutoff db in
      elim (lookup db' at.project at.fingerprint) [
        | none ↦ (none, db')
        | some entry ↦
            if text_eq entry.workspace_fingerprint at.ws_fp
            then replay at entry (retrieve_at fs digest entry.response_hash s) db'
            else (none, rejected at (codes "workspace fingerprint mismatch") db')
      ]

  -- The check before anything is sent upstream.
  unfoldable pub check_cache :
      Option SafeCacheConfig → Bool → Bool → Place → CacheDb → Files → Option Response × CacheDb
  unfolding active lookup_cached
  check_cache cfg bypass opens at db s = elim (active cfg bypass) [
    | none ↦ (none, db)
    | some c ↦ if opens then lookup_cached at db s else (none, db)
  ]

  -- A blob that was written for an entry that could not be.
  abbrev pub undo : Text → Bool → Files → Files
  undo hash created s = if created then (delete_at fs digest hash s).1 else s

  unfoldable pub write_entry :
      Weather → Place → NewCacheEntry → Result (Text × Bool) × Files → CacheDb → CacheDb × Files
  write_entry w at e (err m, s) db = (if w.opens_for_entry then open_db db else db, s)
  write_entry w at e (ok (hash, created), s) db =
      if w.opens_for_entry
      then (if w.inserts
          then (insert at.now (record e { response_hash = hash }) (open_db db), s)
          else (open_db db, undo hash created s))
      else (db, undo hash created s)

  module _ (lossy : List ℕ → Text) where
    -- The entry for a response, up to its hash.
    unfoldable pub entry_for : Place → Text → ℕ → Response → NewCacheEntry
    entry_for at model tokens r = record {
      project_path = at.project;
      fingerprint = at.fingerprint;
      workspace_fingerprint = at.ws_fp;
      response_hash = [];
      model = model;
      status = r.status;
      tokens_input = tokens;
      tokens_output = tokens_of (lossy r.body_bytes);
    }

    abbrev or_same : CacheDb → Option CacheDb → CacheDb
    or_same db none = db
    or_same db (some db') = db'

    unfoldable pub write_within :
        Weather
        → StorageConfig
        → Disk
        → Place
        → Text
        → ℕ
        → Response
        → CacheDb
        → Files
        → CacheDb × Files
    unfolding entry_for write_entry
    write_within w storage disk at model tokens r db s =
        let (checked, allowed) =
          within_limits storage (if w.opens_for_limits then some (open_db db) else none) at.cutoff
            disk at.project at.fingerprint (length r.body_bytes) in
        let db' = or_same db checked in
        if allowed
        then write_entry w at (entry_for at model tokens r) (store_new_at fs digest r.body_bytes s)
            db'
        else (db', s)

    -- The write after a response that came from upstream.
    unfoldable pub store_response :
        Option SafeCacheConfig
        → Bool
        → Weather
        → StorageConfig
        → Disk
        → Place
        → Text
        → ℕ
        → Response
        → CacheDb
        → Files
        → CacheDb × Files
    unfolding active write_within
    store_response cfg bypass w storage disk at model tokens r db s = elim (active cfg bypass) [
      | none ↦ (db, s)
      | some c ↦
          let verdict = inspect_response json (lossy r.body_bytes) in
          if leb 200 r.status && ltb r.status 300
          then (if verdict.safe && leb (length r.body_bytes) c.max_entry_bytes
              then write_within w storage disk at model tokens r db s
              else (if not verdict.safe && (not (text_eq verdict.reason []) && w.opens_for_reject)
                  then (rejected at verdict.reason (open_db db), s)
                  else (db, s)))
          else (db, s)
    ]
