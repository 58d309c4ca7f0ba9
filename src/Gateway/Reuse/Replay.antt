-- ===== src/Gateway/Reuse/Replay.antt =====
-- src/gateway/routes.rs: what was written to the cache is what the next request reads.
use toche.Prelude.{
  ℕ, ◌%◌, ◌^◌, List, some, Bool, true, false, Text, text_eq, text_eq_refl, ok, ◌≡◌, arith, refl,
}
use toche.SafeCache.Db.{
  CacheDb, CacheEntry, NewCacheEntry, new_row, next_id, open_db, lookup, insert, evict_expired,
  evict_expired_rejects, text_lt,
}
use toche.Reduce.Storage.{IsLawful, is_valid_hash, store_new_at, retrieve_at}
use toche.Reduce.Storage.Integrity.{IsContentAddressed, store_new_at-retrieve_at}
use toche.Reduce.Transform.{Env}
use toche.Gateway.Reuse.{
  Place, Response, Weather, opened, replay, lookup_cached, write_entry, entry_for,
}

lookup_fresh :
    (now cutoff : Text) (e : NewCacheEntry) (db : CacheDb)
    → text_lt now cutoff ≡ false
    → lookup (opened cutoff (insert now e db)) e.project_path e.fingerprint
      ≡ some (new_row (next_id db.safe_cache) now e)
unfolding opened lookup insert open_db evict_expired evict_expired_rejects
lookup_fresh now cutoff e db fresh =
    rw fresh (ground (arith, text_eq_refl e.project_path, text_eq_refl e.fingerprint))

module _ (env : Env) (laws : IsLawful env.fs)
    (hex : (t : Text) → is_valid_hash (env.digest t) ≡ true) (lossy : List ℕ → Text) where
  open env use {fs, digest}
  open fs use {Files}

  written :
      (w : Weather) (at : Place) (e : NewCacheEntry) (raw : List ℕ) (db : CacheDb) (s s' : Files)
      → (hash : Text) (created : Bool) → w.opens_for_entry ≡ true
      → w.inserts ≡ true
      → store_new_at fs digest raw s ≡ (ok (hash, created), s')
      → write_entry env w at e (store_new_at fs digest raw s) db
        ≡ (insert at.now (record e { response_hash = hash }) (open_db db), s')
  unfolding write_entry
  written w at e raw db s s' hash created op ins stored = rw (stored, op, ins, write_entry) refl

  pub lookup_hit :
      (next : Place) (entry : CacheEntry) (body : List ℕ) (db : CacheDb) (s : Files)
      → lookup (opened next.cutoff db) next.project next.fingerprint ≡ some entry
      → text_eq entry.workspace_fingerprint next.ws_fp ≡ true
      → retrieve_at fs digest entry.response_hash s ≡ ok body
      → (lookup_cached env next db s).0
        ≡ some (record { status = entry.status % 2 ^ 16; body_bytes = body })
  unfolding lookup_cached replay
  lookup_hit next entry body db s there same back =
      rw (there, same, back, lookup_cached, replay) refl

  -- A response that was written to the cache is replayed to the next request at its place, as long
  -- as the workspace is the same and the entry has not expired: with its status, cut to 16 bits,
  -- and a body with the digest of its body. Here the digests are valid hashes, each blob has the
  -- digest that names it, and the database opens both times and takes the entry.
  pub lookup_cached-write_entry :
      (w : Weather) (at next : Place) (model : Text) (tokens : ℕ) (r : Response) (db : CacheDb)
      → (s s' : Files) (hash : Text) (created : Bool) → IsContentAddressed fs laws digest s
      → w.opens_for_entry ≡ true
      → w.inserts ≡ true
      → store_new_at fs digest r.body_bytes s ≡ (ok (hash, created), s')
      → next.project ≡ at.project
      → next.fingerprint ≡ at.fingerprint
      → next.ws_fp ≡ at.ws_fp
      → text_lt at.now next.cutoff ≡ false
      → (body : List ℕ) × (let written =
            write_entry env w at
              (entry_for env lossy at model tokens r)
              (store_new_at fs digest r.body_bytes s)
              db in
          (lookup_cached env next written.0 written.1).0
          ≡ some (record { status = r.status % 2 ^ 16; body_bytes = body }))
        × (digest body ≡ digest r.body_bytes)
  unfolding entry_for
  lookup_cached-write_entry w at next model tokens r db s s' hash created addressed op ins stored
        same_project same_fingerprint same_ws fresh =
      let (kept, (body, back, named)) =
        store_new_at-retrieve_at fs laws digest r.body_bytes hash created s s' (hex r.body_bytes)
          addressed stored in
      let e : NewCacheEntry = record (entry_for env lossy at model tokens r) {
        response_hash = hash;
      } in
      let row = new_row (next_id (open_db db).safe_cache) at.now e in
      let db' = insert at.now e (open_db db) in
      let there : lookup (opened next.cutoff db') next.project next.fingerprint ≡ some row =
        rw (same_project, same_fingerprint)
          (lookup_fresh at.now next.cutoff e (open_db db) fresh) in
      (
        body,
        rw
            (written w at (entry_for env lossy at model tokens r) r.body_bytes db s s' hash created
              op ins stored)
            (lookup_hit next row body db' s' there (rw same_ws (text_eq_refl at.ws_fp)) back),
        named,
      )
