-- ===== src/Gateway/Limits.antt =====
-- src/gateway/routes.rs, `messages`: whether a response may be written to the cache.
use toche.Prelude.{
  ◌<◌, find, ℕ, ◌+◌, ◌-◌, ◌^◌, ◌≤◌, min, suc, List, [], ◌∷◌, Option, none, some, Bool, true, false,
  ◌&&◌, ◌||◌, not, if◌then◌else◌, ltb, leb, length, retain, Text, any, ◌≡◌, refl, subst, ◌<◌, find,
  arith, Option-cases, inl, inr, is_some, length-retain-le,
}
use toche.Config.Types.{StorageConfig}
use toche.SafeCache.Db.{
  CacheDb, CacheEntry, NewCacheEntry, is_at, text_lt, lookup, count, insert, evict_expired,
  evict_expired_rejects,
}

-- What is measured on the disk: the bytes of the blob directory, whether this platform can measure
-- free space, and that space where it could.
pub record Disk : Type 0 where
  pub cas_bytes : ℕ
  pub measurable : Bool
  pub free : Option ℕ

abbrev pub limits_configured : StorageConfig → Bool
limits_configured c =
    is_some c.max_entries || is_some c.max_cas_bytes || is_some c.min_free_disk_bytes

-- `u64::saturating_add`
abbrev pub saturating_add : ℕ → ℕ → ℕ
saturating_add a b = min (a + b) (2 ^ 64 - 1)

unfoldable pub entries_ok : Option ℕ → CacheDb → Text → Text → Bool
entries_ok none db project fingerprint = true
entries_ok (some max_entries) db project fingerprint =
    if leb max_entries (count db none) then is_some (lookup db project fingerprint) else true

unfoldable pub cas_bytes_ok : Option ℕ → Disk → ℕ → Bool
cas_bytes_ok none disk size = true
cas_bytes_ok (some max_cas_bytes) disk size =
    not (ltb max_cas_bytes (saturating_add disk.cas_bytes size))

unfoldable pub free_ok : Option ℕ → Disk → ℕ → Bool
free_ok none disk size = true
free_ok (some min_free) disk size =
    disk.measurable && elim disk.free [ none ↦ false | some free ↦ leb min_free (free - size) ]

-- With the database as it is after the eviction, and whether the write may be done. `db` is the
-- opened database, `cutoff` the time before which entries have expired.
unfoldable pub within_limits :
    StorageConfig → Option CacheDb → Text → Disk → Text → Text → ℕ → Option CacheDb × Bool
unfolding entries_ok cas_bytes_ok free_ok
within_limits c none cutoff disk project fingerprint size = (none, not (limits_configured c))
within_limits c (some db) cutoff disk project fingerprint size =
    let evicted = (evict_expired_rejects cutoff (evict_expired cutoff db).0).0 in
    (
      some evicted,
      entries_ok c.max_entries evicted project fingerprint
          && (cas_bytes_ok c.max_cas_bytes disk size && free_ok c.min_free_disk_bytes disk size),
    )

retain-shorter :
    (keep p : CacheEntry → Bool) (rows : List CacheEntry)
    → any p rows ≡ true
    → ((r : CacheEntry) → p r ≡ true → keep r ≡ false)
    → suc (length (retain keep rows)) ≤ length rows
retain-shorter keep p [] h drops = absurd cc
retain-shorter keep p (r ∷ rows) h drops =
    ground (arith, drops r, retain-shorter keep p rows, length-retain-le keep rows)

found-any :
    (p : CacheEntry → Bool) (rows : List CacheEntry) (r : CacheEntry)
    → find p rows ≡ some r
    → any p rows ≡ true
found-any p [] r h = absurd cc
found-any p (q ∷ rows) r h = ground (arith, found-any p rows r)

-- Replacing or adding an entry where `entries_ok` agrees keeps to the limit.
count-insert_le :
    (max : ℕ) (now : Text) (e : NewCacheEntry) (db : CacheDb)
    → entries_ok (some max) db e.project_path e.fingerprint ≡ true
    → count db none ≤ max
    → count (insert now e db) none ≤ max
unfolding entries_ok count insert lookup
count-insert_le max now e db ok_ fits =
    elim (Option-cases (lookup db e.project_path e.fingerprint)) [
      | inl absent ↦ ground (
        arith,
        ok_,
        absent,
        length-retain-le (λ r. not (is_at e.project_path e.fingerprint r)) db.safe_cache,
      )
      | inr (r, there) ↦
          let shorter =
            retain-shorter (λ r. not (is_at e.project_path e.fingerprint r))
              (is_at e.project_path e.fingerprint) db.safe_cache
              (found-any (is_at e.project_path e.fingerprint) db.safe_cache r there)
              (λ q h. rw h refl) in
          omega (arith, shorter, fits)
    ]

evicted-fewer :
    (cutoff : Text) (db : CacheDb) (max : ℕ)
    → count db none ≤ max
    → count (evict_expired_rejects cutoff (evict_expired cutoff db).0).0 none ≤ max
unfolding count evict_expired evict_expired_rejects
evicted-fewer cutoff db max fits = omega (
  arith,
  fits,
  length-retain-le (λ (r : CacheEntry). not (text_lt r.created_at cutoff)) db.safe_cache,
)

-- What a permitted write has passed.
allowed :
    (c : StorageConfig) (db evicted : CacheDb) (cutoff : Text) (disk : Disk)
    (project fingerprint : Text) (size : ℕ)
    → within_limits c (some db) cutoff disk project fingerprint size ≡ (some evicted, true)
    → ((evict_expired_rejects cutoff (evict_expired cutoff db).0).0 ≡ evicted)
      × (entries_ok c.max_entries evicted project fingerprint ≡ true)
      × (cas_bytes_ok c.max_cas_bytes disk size ≡ true)
      × (free_ok c.min_free_disk_bytes disk size ≡ true)
unfolding within_limits
allowed c db evicted cutoff disk project fingerprint size h = ground (arith, h)

-- A write that the limits allow keeps the number of entries within its maximum, where it was
-- within it before.
pub within_limits-entries :
    (c : StorageConfig) (db evicted : CacheDb) (cutoff now : Text) (disk : Disk) (e : NewCacheEntry)
    (size max : ℕ)
    → within_limits c (some db) cutoff disk e.project_path e.fingerprint size ≡ (some evicted, true)
    → c.max_entries ≡ some max
    → count db none ≤ max
    → count (insert now e evicted) none ≤ max
within_limits-entries c db evicted cutoff now disk e size max h limit fits =
    let (same, entries, bytes, space) =
      allowed c db evicted cutoff disk e.project_path e.fingerprint size h in
    count-insert_le max now e evicted (rw limit at entries)
      (subst (λ s. count s none ≤ max) same (evicted-fewer cutoff db max fits))

-- Where both limits are set, the maximum lies below the greatest u64 and the minimum is positive, a
-- write that the limits allow keeps the blobs, the new one included, within their maximum, and
-- leaves at least the least free space, which was measured.
pub within_limits-bytes :
    (c : StorageConfig) (db evicted : CacheDb) (cutoff : Text) (disk : Disk)
    (project fingerprint : Text) (size max least : ℕ)
    → within_limits c (some db) cutoff disk project fingerprint size ≡ (some evicted, true)
    → c.max_cas_bytes ≡ some max
    → c.min_free_disk_bytes ≡ some least
    → max < 2 ^ 64 - 1
    → 0 < least
    → (disk.cas_bytes + size ≤ max) × ((free : ℕ) × (disk.free ≡ some free) × (least + size ≤ free))
unfolding cas_bytes_ok free_ok
within_limits-bytes c db evicted cutoff disk project fingerprint size max least h cas free bound
      positive =
    let (same, entries, bytes, space) =
      allowed c db evicted cutoff disk project fingerprint size h in
    (
      ground (arith, rw cas at bytes),
      elim (Option-cases disk.free) [
        | inl unmeasured ↦ absurd (ground (arith, rw free at space, unmeasured))
        | inr (n, measured) ↦ (n, measured, ground (arith, rw free at space, measured))
      ],
    )
