-- ===== src/SafeCache/Invariant.antt =====
-- src/safe_cache/cache_db.rs: the tables stay consistent, whatever operations run in whatever order.
use toche.Prelude.{
  List, [], ◌∷◌, none, some, Bool, true, false, ◌||◌, not, Text, text_eq, text_eq_iff, text_eq_refl,
  if◌then◌else◌, any, all, retain, map, ◌≡◌, refl, ◌∙◌, arith, Bool-cases, inl, inr, ◌+◌,
}
use toche.SafeCache.Db.{
  text_lt, CacheDb, CacheEntry, NewCacheEntry, is_at, contains, insert_or_ignore, backfill, open_db,
  register_cas, insert, touch, evict_expired, clear, insert_reject, evict_expired_rejects,
  Operation, opens, registers, inserts, touches, evicts, clears, rejects, evicts_rejects, step, run,
}
use toche.SafeCache.Entries.{unique}

abbrev registered : List Text → List CacheEntry → Bool
registered known rows = all (λ (r : CacheEntry). contains r.response_hash known) rows

-- No two rows are at one place, the blob of every row is known, and so is every blob that the
-- cache owns.
abbrev pub IsValid : CacheDb → Type 0
IsValid s =
    (unique s.safe_cache ≡ true)
    × (registered s.cas_known s.safe_cache ≡ true)
    × (all (λ h. contains h s.cas_known) s.cas_cache_refs ≡ true)

pub contains-insert_or_ignore :
    (h j : Text) (hashes : List Text)
    → contains h (insert_or_ignore j hashes) ≡ (text_eq j h || contains h hashes)
contains-insert_or_ignore h j hashes = elim (Bool-cases (contains j hashes)) [
  | inl known ↦ ground (arith, known, text_eq_iff j h)
  | inr fresh ↦ rw fresh refl
]

any-retain :
    (keep p : CacheEntry → Bool) (rows : List CacheEntry)
    → any p rows ≡ false
    → any p (retain keep rows) ≡ false
any-retain keep p [] h = refl
any-retain keep p (r ∷ rows) h = ground (arith, any-retain keep p rows)

all-retain :
    (keep p : CacheEntry → Bool) (rows : List CacheEntry)
    → all p rows ≡ true
    → all p (retain keep rows) ≡ true
all-retain keep p [] h = refl
all-retain keep p (r ∷ rows) h = ground (arith, all-retain keep p rows)

unique-retain :
    (keep : CacheEntry → Bool) (rows : List CacheEntry)
    → unique rows ≡ true
    → unique (retain keep rows) ≡ true
unfolding unique
unique-retain keep [] h = refl
unique-retain keep (r ∷ rows) h =
    ground
      (arith, unique-retain keep rows, any-retain keep (is_at r.project_path r.fingerprint) rows)

absent-retain :
    (p f : Text) (rows : List CacheEntry)
    → any (is_at p f) (retain (λ r. not (is_at p f r)) rows) ≡ false
absent-retain p f [] = refl
absent-retain p f (r ∷ rows) = ground (arith, absent-retain p f rows)

registered-more :
    (j : Text) (known : List Text) (rows : List CacheEntry)
    → registered known rows ≡ true
    → registered (insert_or_ignore j known) rows ≡ true
registered-more j known [] h = refl
registered-more j known (r ∷ rows) h =
    rw (contains-insert_or_ignore r.response_hash j known)
      (ground (arith, registered-more j known rows))

owned-more :
    (j : Text) (known refs : List Text)
    → all (λ h. contains h known) refs ≡ true
    → all (λ h. contains h (insert_or_ignore j known)) refs ≡ true
owned-more j known [] h = refl
owned-more j known (r ∷ refs) h =
    rw (contains-insert_or_ignore r j known) (ground (arith, owned-more j known refs))

register_cas-IsValid : (h : Text) (s : CacheDb) → IsValid s → IsValid (register_cas h s)
unfolding register_cas
register_cas-IsValid h s (u, r, o) =
    (u, registered-more h s.cas_known s.safe_cache r, owned-more h s.cas_known s.cas_cache_refs o)

backfill-known :
    (rows all_rows : List CacheEntry) (known refs : List Text)
    → registered known all_rows ≡ true
    → all (λ h. contains h known) refs ≡ true
    → (registered (backfill rows known) all_rows ≡ true)
      × (all (λ h. contains h (backfill rows known)) refs ≡ true)
unfolding backfill
backfill-known [] all_rows known refs r o = (r, o)
backfill-known (q ∷ rows) all_rows known refs r o =
    backfill-known rows all_rows (insert_or_ignore q.response_hash known) refs
      (registered-more q.response_hash known all_rows r) (owned-more q.response_hash known refs o)

retain-IsValid :
    (keep : CacheEntry → Bool) (s : CacheDb)
    → IsValid s
    → IsValid (record s { safe_cache = retain keep s.safe_cache })
retain-IsValid keep s (u, r, o) = (
  unique-retain keep s.safe_cache u,
  all-retain keep (λ (r : CacheEntry). contains r.response_hash s.cas_known) s.safe_cache r,
  o,
)

contains_self : (h : Text) (hashes : List Text) → contains h (insert_or_ignore h hashes) ≡ true
contains_self h hashes = rw (contains-insert_or_ignore h h hashes, text_eq_refl h) refl

owned-new :
    (h : Text) (known refs : List Text)
    → contains h (insert_or_ignore h known) ≡ true
    → all (λ j. contains j (insert_or_ignore h known)) refs ≡ true
    → all
        (λ j. contains j (insert_or_ignore h known))
        (if contains h known then refs else insert_or_ignore h refs)
      ≡ true
owned-new h known refs own more = ground (arith, own, more)

insert-IsValid :
    (now : Text) (e : NewCacheEntry) (s : CacheDb) → IsValid s → IsValid (insert now e s)
unfolding insert register_cas unique
insert-IsValid now e s (u, r, o) =
    let others = retain (λ r. not (is_at e.project_path e.fingerprint r)) s.safe_cache in
    let (u', r', o') =
      retain-IsValid (λ r. not (is_at e.project_path e.fingerprint r)) s (u, r, o) in
    let own = contains_self e.response_hash s.cas_known in
    let more = owned-more e.response_hash s.cas_known s.cas_cache_refs o in
    (
      rw (absent-retain e.project_path e.fingerprint s.safe_cache) u',
      rw own (registered-more e.response_hash s.cas_known others r'),
      owned-new e.response_hash s.cas_known s.cas_cache_refs own more,
    )

-- The keys of the rows and their blobs decide validity: a touch changes neither.
any-touch :
    (now q g p f : Text) (rows : List CacheEntry)
    → any (is_at p f) (
        map
          (λ (r : CacheEntry).
            if is_at q g r then record r { last_hit_at = now; hit_count = r.hit_count + 1 } else r)
          rows)
      ≡ any (is_at p f) rows
any-touch now q g p f [] = refl
any-touch now q g p f (r ∷ rows) = ground (arith, any-touch now q g p f rows)

unique-touch :
    (now q g : Text) (rows : List CacheEntry)
    → unique (
        map
          (λ (r : CacheEntry).
            if is_at q g r then record r { last_hit_at = now; hit_count = r.hit_count + 1 } else r)
          rows)
      ≡ unique rows
unfolding unique
unique-touch now q g [] = refl
unique-touch now q g (r ∷ rows) =
    ground (arith, unique-touch now q g rows, any-touch now q g r.project_path r.fingerprint rows)

registered-touch :
    (known : List Text) (now q g : Text) (rows : List CacheEntry)
    → registered known (
        map
          (λ (r : CacheEntry).
            if is_at q g r then record r { last_hit_at = now; hit_count = r.hit_count + 1 } else r)
          rows)
      ≡ registered known rows
registered-touch known now q g [] = refl
registered-touch known now q g (r ∷ rows) = ground (arith, registered-touch known now q g rows)

-- Every operation keeps the tables valid.
step-IsValid : (o : Operation) (s : CacheDb) → IsValid s → IsValid (step o s)
unfolding step open_db touch evict_expired clear insert_reject evict_expired_rejects unique
step-IsValid opens s (u, r, o) =
    let (r', o') = backfill-known s.safe_cache s.safe_cache s.cas_known s.cas_cache_refs r o in
    (u, r', o')
step-IsValid (registers hash) s v = register_cas-IsValid hash s v
step-IsValid (inserts now e) s v = insert-IsValid now e s v
step-IsValid (touches now p f) s (u, r, o) = (
  unique-touch now p f s.safe_cache ∙ u,
  registered-touch s.cas_known now p f s.safe_cache ∙ r,
  o,
)
step-IsValid (evicts cutoff) s v =
    retain-IsValid (λ (r : CacheEntry). not (text_lt r.created_at cutoff)) s v
step-IsValid (clears none) s (u, r, o) = (refl, refl, o)
step-IsValid (clears (some p)) s v =
    retain-IsValid (λ (r : CacheEntry). not (text_eq r.project_path p)) s v
step-IsValid (rejects q) s v = v
step-IsValid (evicts_rejects cutoff) s v = v

-- Whatever operations run on a valid database, in whatever order, at most one entry is at each
-- place, the blob of every entry is known, and so is every blob that the cache owns.
pub run-IsValid : (ops : List Operation) (s : CacheDb) → IsValid s → IsValid (run ops s)
unfolding run
run-IsValid [] s v = v
run-IsValid (o ∷ ops) s v = run-IsValid ops (step o s) (step-IsValid o s v)
